-- ===== src/Queries/Users.antt =====
-- db/queries/user.go.
pub mod Unlock
pub mod Silent
pub mod Found
use cex_go.Prelude.{ℕ, String, true, ◌||◌, ◌==◌, str_eq, if◌then◌else◌, Bool}
use cex_go.Prelude.Int.{pos}
use cex_go.Models.{User}
use cex_go.Database.{UserRow, Tick, Tx, ◌>>=◌, pure, user_check}
use cex_go.Database.Statement.{query_row, exec_insert}
use cex_go.Queries.Balance.{of_user, put_users}

-- The row that `INSERT INTO users (email, password_hash)` makes, with the columns' defaults
abbrev pub new_user_row : String → String → Tick → UserRow
new_user_row email password_hash t = record {
  id = t.uuid;
  email = email;
  password_hash = password_hash;
  usd_balance = pos 0;
  locked_balance = pos 0;
  role = "user";
}

-- `WHERE email = email`
abbrev pub of_email : String → UserRow → Bool
of_email email r = str_eq r.email email

-- PRIMARY KEY (id), UNIQUE (email)
abbrev pub same_user_key : UserRow → UserRow → Bool
same_user_key r q = q.id == r.id || str_eq q.email r.email

unfoldable pub create_user : String → String → Tx ℕ
unfolding exec_insert
create_user email password_hash = do
  row ←
      exec_insert (λ db. db.users) put_users (new_user_row email password_hash) user_check
        same_user_key λ _ _. true
  pure row.id

-- The id and the hash of the password
unfoldable pub get_user_by_email : String → Tx (ℕ × String)
unfolding query_row
get_user_by_email email = do
  r ← query_row (λ db. db.users) put_users (of_email email)
  pure (r.id, r.password_hash)

unfoldable pub get_user_by_id : ℕ → Tx User
unfolding query_row
get_user_by_id id = do
  r ← query_row (λ db. db.users) put_users (of_user id)
  pure (record { id = id; email = r.email; role = r.role })
