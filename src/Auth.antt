-- ===== src/Auth.antt =====
-- internal/auth/auth.go. The library for JSON Web Tokens is a parameter.
pub mod Header
use cex_go.Prelude.{ℕ, String, Bool, true, false, Option, none, some, ◌*◌, str_eq, if◌then◌else◌}
use cex_go.Prelude.Int.{ℤ, pos, ◌+ℤ◌}

-- `Claims`: `subject`, `issued_at` and `expires_at` are those of `jwt.RegisteredClaims`.
pub record Claims : Type 0 where
  pub user_id : ℕ
  pub email : String
  pub subject : ℕ
  pub issued_at : ℤ
  pub expires_at : ℤ

-- What is used of golang-jwt. `numeric_date` is `NewNumericDate`; `signed_string` signs claims with
-- HS256 under a secret. `parse_with_claims` reads a token at a time; it asks the key function for
-- the secret, with whether the token's method is HMAC, and yields the claims and `token.Valid`.
pub record Jwt : Type 0 where
  pub numeric_date : ℤ → ℤ
  pub signed_string : Claims → String → Option String
  pub parse_with_claims : ℤ → String → (Bool → Option String) → Option (Claims × Bool)

-- `10 * 24 * time.Hour`
abbrev pub ten_days : ℤ
ten_days = pos (10 * 24 * 3600 * 1000)

-- Placeholders in the source: the hash of a password is the password.
unfoldable pub hash_password : String → Option String
hash_password password = some password

unfoldable pub check_password_hash : String → String → Bool
check_password_hash password hash = str_eq password hash

module _ (jwt : Jwt) (secret : String) where
  open jwt use {numeric_date, signed_string, parse_with_claims}

  abbrev pub new_claims : ℤ → ℤ → ℕ → String → Claims
  new_claims issued expiring user_id email = record {
    user_id = user_id;
    email = email;
    subject = user_id;
    issued_at = numeric_date issued;
    expires_at = numeric_date (expiring +ℤ ten_days);
  }

  -- The clock is read for the issue and again for the expiry.
  unfoldable pub generate_jwt : ℤ → ℤ → ℕ → String → Option String
  generate_jwt issued expiring user_id email =
      signed_string (new_claims issued expiring user_id email) secret

  abbrev pub key_function : Bool → Option String
  key_function is_hmac = if is_hmac then some secret else none

  abbrev pub valid_claims : Option (Claims × Bool) → Option Claims
  valid_claims none = none
  valid_claims (some (claims, true)) = some claims
  valid_claims (some (claims, false)) = none

  unfoldable pub validate_jwt : ℤ → String → Option Claims
  validate_jwt now token = valid_claims (parse_with_claims now token key_function)
