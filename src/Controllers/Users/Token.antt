-- ===== src/Controllers/Users/Token.antt =====
-- `LoginUser` of internal/controllers/users.go: what it finds, and its token.
use cex_go.Prelude.{ℕ, String, Option, none, some, ◌≡◌, refl, inl, inr, Bool-cases, ◌==◌}
use cex_go.Prelude.Int.{ℤ}
use cex_go.Models.{UserLoginRequest}
use cex_go.Database.{Db, UserRow, Session, Result, ok, err}
use cex_go.Database.Table.{select}
use cex_go.Database.Ensures.{Ensures}
use cex_go.Queries.Balance.{of_user}
use cex_go.Queries.Users.{get_user_by_email, get_user_by_id}
use cex_go.Queries.Users.Found.{IsFound, get_user_by_id-Ensures}
use cex_go.Auth.{Jwt, check_password_hash, generate_jwt}
use cex_go.Controllers.Handlers.{answer}
use cex_go.Controllers.Answers.{Answers, after-Answers, answer-Answers}
use cex_go.Controllers.Users.{login_user, logged_in, LoginResponse, checked_password}

module _ (jwt : Jwt) (secret : String) (issued expiring : ℤ) where
  -- The user is there, and the token is signed for the user's id.
  abbrev pub IsLoggedIn : LoginResponse → Db → Type 0
  IsLoggedIn res db =
      (generate_jwt jwt secret issued expiring res.id res.email ≡ some res.token)
      × (r : UserRow) × (select (of_user res.id) db.users ≡ some r)

  Ensures-any : {A : Type 0} (r : Result A × Session) → Ensures (λ _ _. Unit {0}) r
  Ensures-any (ok a, s) = tt
  Ensures-any (err e, s) = tt

  logged_in-Answers :
      (id : ℕ) (email role : String) (o : Option String) (s : Session) (r : UserRow)
      → generate_jwt jwt secret issued expiring id email ≡ o
      → select (of_user id) s.db.users ≡ some r
      → Answers IsLoggedIn (logged_in jwt secret issued expiring id email role o s)
  logged_in-Answers id email role none s r e k = tt
  logged_in-Answers id email role (some token) s r e k = (e, r, k)

  checked_password-Answers :
      (req : UserLoginRequest) (id : ℕ) (hash : String) (s : Session)
      → Answers IsLoggedIn (checked_password jwt secret issued expiring req id hash s)
  checked_password-Answers req id hash s =
      elim (Bool-cases (check_password_hash req.password hash)) [
        | inr e ↦ rw e tt
        | inl e ↦ rw e (
            after-Answers (IsFound id s.db) IsLoggedIn (answer 500 (get_user_by_id id) s) _
              (answer-Answers (IsFound id s.db) 500 (get_user_by_id id) s
                (get_user_by_id-Ensures id s))
              λ u s' (d, r, k, q).
                logged_in-Answers id req.email u.role
                  (generate_jwt jwt secret issued expiring id req.email) s' r refl (rw d k))
      ]

  pub login_user-Answers :
      (req : UserLoginRequest) (s : Session)
      → Answers IsLoggedIn (login_user jwt secret issued expiring (some req) s)
  unfolding login_user
  login_user-Answers req s =
      after-Answers (λ _ _. Unit) IsLoggedIn (answer 401 (get_user_by_email req.email) s) _
        (answer-Answers (λ _ _. Unit) 401 (get_user_by_email req.email) s
          (Ensures-any (get_user_by_email req.email s)))
        λ (id, hash) s' _. elim (Bool-cases (id == 0)) [
          | inl e ↦ rw e tt
          | inr e ↦ rw e (checked_password-Answers req id hash s')
        ]
