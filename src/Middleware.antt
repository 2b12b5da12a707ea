-- ===== src/Middleware.antt =====
-- internal/middleware/verifyUser.go: what runs in front of a handler. It refuses the request or puts
-- the user's id and email into the context.
pub mod Guard
pub mod Session
use cex_go.Prelude.{ℕ, String, Option, none, some, not, str_eq, if◌then◌else◌}
use cex_go.Prelude.Int.{ℤ}
use cex_go.Models.{User}
use cex_go.Queries.Users.{get_user_by_id}
use cex_go.Auth.{Claims, Jwt, validate_jwt}
use cex_go.Auth.Header.{second_part}
use cex_go.Controllers.{Handler, done, answer, refuse, and_then}

module _ (jwt : Jwt) (secret : String) (now : ℤ) where
  abbrev pub known_user : Option Claims → Handler User
  known_user none = refuse 401
  known_user (some claims) = answer 401 (get_user_by_id claims.user_id)

  -- A header without a space makes the index panic, which gin's recovery answers with a 500.
  abbrev pub check_token : Option String → Handler User
  check_token none = refuse 500
  check_token (some token) = known_user (validate_jwt jwt secret now token)

  -- What both functions begin with. The header is empty where the request has none. The user that is
  -- found has the id of the claims.
  unfoldable pub authenticate : String → Handler User
  authenticate header = if str_eq header "" then refuse 401 else check_token (second_part header)

  unfoldable pub verify_user : String → Handler (ℕ × String)
  verify_user header = and_then (authenticate header) λ user s. (done (user.id, user.email), s)

  unfoldable pub verify_admin : String → Handler (ℕ × String)
  verify_admin header = and_then (authenticate header) λ user.
      if not (str_eq user.role "admin") then refuse 403 else λ s. (done (user.id, user.email), s)
