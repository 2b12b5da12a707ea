-- ===== src/Middleware/Guard.antt =====
-- What a request that passes VerifyUser or VerifyAdmin has shown.
use cex_go.Prelude.{
  ℕ, String, Option, none, some, str_eq, ◌≡◌, refl, Bool-cases, inl, inr, not, eq_iff,
  if◌then◌else◌,
}
use cex_go.Prelude.Int.{ℤ}
use cex_go.Models.{User}
use cex_go.Database.{Db, UserRow, Session}
use cex_go.Database.Table.{select}
use cex_go.Database.Ensures.{Ensures-mono}
use cex_go.Queries.Balance.{of_user}
use cex_go.Queries.Users.{get_user_by_id}
use cex_go.Queries.Users.Found.{user_of, IsFound, get_user_by_id-Ensures}
use cex_go.Auth.{Claims, Jwt, validate_jwt}
use cex_go.Auth.Header.{second_part}
use cex_go.Controllers.{done, refuse}
use cex_go.Controllers.Answers.{Answers, answer-Answers, after-Answers}
use cex_go.Middleware.{known_user, check_token, authenticate, verify_admin}

module _ (jwt : Jwt) (secret : String) (now : ℤ) where
  -- The header carries a token that is valid for a user who is there: `u`.
  abbrev pub IsBearer : String → Db → User → Type 0
  IsBearer header db u =
      (token : String) × (claims : Claims) × (r : UserRow) × (second_part header ≡ some token)
      × (validate_jwt jwt secret now token ≡ some claims)
      × (select (of_user claims.user_id) db.users ≡ some r)
      × (u ≡ user_of claims.user_id r)

  known_user-Answers :
      (header token : String) (c : Option Claims) (s : Session)
      → second_part header ≡ some token
      → validate_jwt jwt secret now token ≡ c
      → Answers (λ u db. (db ≡ s.db) × IsBearer header s.db u) (known_user jwt secret now c s)
  known_user-Answers header token none s h v = tt
  known_user-Answers header token (some claims) s h v =
      answer-Answers (λ u db. (db ≡ s.db) × IsBearer header s.db u) 401
        (get_user_by_id claims.user_id) s
        (Ensures-mono (IsFound claims.user_id s.db) (λ u db. (db ≡ s.db) × IsBearer header s.db u)
          (get_user_by_id claims.user_id s) (get_user_by_id-Ensures claims.user_id s)
          λ u db (e, r, k, q). (e, (token, claims, r, h, v, k, q)))

  check_token-Answers :
      (header : String) (o : Option String) (s : Session)
      → second_part header ≡ o
      → Answers (λ u db. (db ≡ s.db) × IsBearer header s.db u) (check_token jwt secret now o s)
  check_token-Answers header none s h = tt
  check_token-Answers header (some token) s h =
      known_user-Answers header token (validate_jwt jwt secret now token) s h refl

  pub authenticate-Answers :
      (header : String) (s : Session)
      → Answers
          (λ u db. (db ≡ s.db) × IsBearer header s.db u)
          (authenticate jwt secret now header s)
  unfolding authenticate
  authenticate-Answers header s = elim (Bool-cases (str_eq header "")) [
    | inl e ↦ rw e tt
    | inr e ↦ rw e (check_token-Answers header (second_part header) s refl)
  ]

  -- An admin's token
  abbrev pub IsAdminBearer : String → Db → ℕ × String → Type 0
  IsAdminBearer header db (id, email) =
      (u : User) × IsBearer header db u × (u.role ≡ "admin") × (u.id ≡ id) × (u.email ≡ email)

  admit_admin-Answers :
      (header : String) (u : User) (s : Session) (db : Db)
      → s.db ≡ db
      → IsBearer header db u
      → Answers
          (λ q d. (d ≡ db) × IsAdminBearer header db q)
          ((if not (str_eq u.role "admin") then refuse 403 else λ s. (done (u.id, u.email), s)) s)
  admit_admin-Answers header u s db e b = elim (Bool-cases (str_eq u.role "admin")) [
    | inl r ↦ rw r (e, (u, b, (eq_iff u.role "admin").0 r, refl, refl))
    | inr r ↦ rw r tt
  ]

  -- `VerifyAdmin` lets a request on only if its header has a token, behind the first space, that is
  -- valid for a user who is in the database with the role of an admin; that user's id and email go
  -- into the context, and the database is as it was.
  pub verify_admin-Answers :
      (header : String) (s : Session)
      → Answers
          (λ q db. (db ≡ s.db) × IsAdminBearer header s.db q)
          (verify_admin jwt secret now header s)
  unfolding verify_admin
  verify_admin-Answers header s =
      after-Answers (λ u db. (db ≡ s.db) × IsBearer header s.db u)
        (λ q db. (db ≡ s.db) × IsAdminBearer header s.db q) (authenticate jwt secret now header s) _
        (authenticate-Answers header s) λ u s' (e, b). admit_admin-Answers header u s' s.db e b
