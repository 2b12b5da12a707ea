-- ===== src/Controllers/Users.antt =====
-- internal/controllers/users.go.
pub mod Login
pub mod Token
use cex_go.Prelude.{ℕ, String, Option, none, some, not, ◌==◌, if◌then◌else◌}
use cex_go.Prelude.Int.{ℤ}
use cex_go.Models.{UserRegistrationRequest, UserLoginRequest}
use cex_go.Database.{Session, Result, ok, err}
use cex_go.Queries.Users.{create_user, get_user_by_email, get_user_by_id}
use cex_go.Auth.{Jwt, hash_password, check_password_hash, generate_jwt}
use cex_go.Controllers.Handlers.{Outcome, done, refused, Handler, answer, refuse, and_then}

abbrev pub create_hashed : String → Option String → Handler (ℕ × String)
create_hashed email none = refuse 500
create_hashed email (some hash) =
    and_then (answer 500 (create_user email hash)) λ id s. (done (id, email), s)

-- Whatever error the lookup ends with, the email counts as not registered.
abbrev pub looked_up :
    UserRegistrationRequest → Result (ℕ × String) × Session → Outcome (ℕ × String) × Session
looked_up req (ok _, s) = (refused 409, s)
looked_up req (err _, s) = create_hashed req.email (hash_password req.password) s

-- The request is `none` where gin's binding refuses the body.
unfoldable pub register_user : Option UserRegistrationRequest → Handler (ℕ × String)
register_user none s = refuse 400 s
register_user (some req) s = looked_up req (get_user_by_email req.email s)

pub record LoginResponse : Type 0 where
  pub id : ℕ
  pub email : String
  pub role : String
  pub token : String

module _ (jwt : Jwt) (secret : String) (issued expiring : ℤ) where
  abbrev pub logged_in : ℕ → String → String → Option String → Handler LoginResponse
  logged_in id email role none s = refuse 500 s
  logged_in id email role (some token) s =
      (done (record { id = id; email = email; role = role; token = token }), s)

  abbrev pub checked_password : UserLoginRequest → ℕ → String → Handler LoginResponse
  checked_password req id hash =
      if not (check_password_hash req.password hash)
      then refuse 401
      else and_then (answer 500 (get_user_by_id id)) λ user.
        logged_in id req.email user.role (generate_jwt jwt secret issued expiring id req.email)

  unfoldable pub login_user : Option UserLoginRequest → Handler LoginResponse
  login_user none = refuse 400
  login_user (some req) =
      and_then (answer 401 (get_user_by_email req.email))
        λ (id, hash). if id == 0 then refuse 401 else checked_password req id hash
