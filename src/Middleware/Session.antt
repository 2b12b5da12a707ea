-- ===== src/Middleware/Session.antt =====
-- `LoginUser` of internal/controllers/users.go and then VerifyUser.
use cex_go.Prelude.{ℕ, String, Bool, Option, some, true, false, ◌≡◌, refl, List, ◌∷◌}
use cex_go.Prelude.Int.{ℤ, ◌<ℤ◌, ◌+ℤ◌}
use mathlib.Core.Path.{subst}
use cex_go.Models.{UserLoginRequest}
use cex_go.Database.{Db, UserRow, Tick, Session}
use cex_go.Database.Table.{select}
use cex_go.Database.Served.{session}
use cex_go.Queries.Balance.{of_user}
use cex_go.Queries.Users.Found.{get_user_by_id-served}
use cex_go.Auth.{Claims, Jwt, generate_jwt, validate_jwt, new_claims, ten_days, key_function}
use cex_go.Auth.Header.{bearer, has_space, second_part-bearer, bearer-nonempty}
use cex_go.Controllers.{done}
use cex_go.Controllers.Answers.{Answers}
use cex_go.Controllers.Users.{login_user, LoginResponse}
use cex_go.Controllers.Users.Token.{IsLoggedIn, login_user-Answers}
use cex_go.Middleware.{authenticate, verify_user}

-- What golang-jwt documents: a token that was signed with HS256 under a secret is read back with its
-- claims, and is valid, by a key function that gives that secret, until it expires.
abbrev pub ReadsBack : Jwt → Type 0
ReadsBack jwt =
    (claims : Claims) (secret token : String) (key : Bool → Option String) (now : ℤ)
    → jwt.signed_string claims secret ≡ some token
    → key true ≡ some secret
    → now <ℤ claims.expires_at
    → jwt.parse_with_claims now token key ≡ some (claims, true)

module _ (jwt : Jwt) (reads_back : ReadsBack jwt) (secret : String) (issued expiring now : ℤ) where
  pub validate_jwt-generate_jwt :
      (id : ℕ) (email token : String)
      → generate_jwt jwt secret issued expiring id email ≡ some token
      → now <ℤ jwt.numeric_date (expiring +ℤ ten_days)
      → validate_jwt jwt secret now token ≡ some (new_claims jwt secret issued expiring id email)
  unfolding validate_jwt generate_jwt
  validate_jwt-generate_jwt id email token e h =
      rw
        (reads_back (new_claims jwt secret issued expiring id email) secret token
          (key_function jwt secret) now e refl h)
        refl

  verify_user-served :
      (token : String) (claims : Claims) (r : UserRow) (db : Db) (t : Tick) (ts : List Tick)
      → has_space token ≡ false
      → validate_jwt jwt secret now token ≡ some claims
      → t.fails ≡ false
      → select (of_user claims.user_id) db.users ≡ some r
      → verify_user jwt secret now (bearer token) (session db (t ∷ ts))
        ≡ (done (claims.user_id, r.email), session db ts)
  unfolding verify_user authenticate
  verify_user-served token claims r db t ts n v f k =
      rw
        (
          bearer-nonempty token,
          second_part-bearer token n,
          v,
          get_user_by_id-served claims.user_id db t ts r f k,
        )
        refl

  -- A client that sends the token of a login that was answered, before the token expires and while the
  -- server answers the lookup, is let on by VerifyUser with the id that it logged in with, if a signed
  -- token is read back until it expires and the token has no space.
  pub verify_user-login_user :
      (req : UserLoginRequest) (res : LoginResponse) (s s' : Session) (t : Tick) (ts : List Tick)
      → login_user jwt secret issued expiring (some req) s ≡ (done res, s')
      → has_space res.token ≡ false
      → now <ℤ jwt.numeric_date (expiring +ℤ ten_days)
      → t.fails ≡ false
      → (email : String) × (verify_user jwt secret now (bearer res.token) (session s'.db (t ∷ ts))
          ≡ (done (res.id, email), session s'.db ts))
  verify_user-login_user req res s s' t ts e n h f =
      let found =
        subst (Answers (IsLoggedIn jwt secret issued expiring)) e
          (login_user-Answers jwt secret issued expiring req s) in
      (
        found.1.email,
        verify_user-served res.token (new_claims jwt secret issued expiring res.id res.email)
            found.1 s'.db t ts n (validate_jwt-generate_jwt res.id res.email res.token found.0 h) f
            found.2,
      )
