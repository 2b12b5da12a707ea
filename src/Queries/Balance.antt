-- ===== src/Queries/Balance.antt =====
-- db/queries/balance.go, the queries that run in a caller's transaction. USD stands in the users
-- table, every other asset in the balances table. A `SELECT … FOR UPDATE` holds the row until the
-- transaction ends, so that nobody else writes it before the UPDATE that follows.
pub mod Totals
pub mod Moves
pub mod Keeping
pub mod Unlocking
pub mod Ledger
pub mod Steps
pub mod Refinement
pub mod Restoring
pub mod Granted
use cex_go.Prelude.{
  ℕ, String, Bool, ◌&&◌, ◌==◌, ◌≡◌, none, some, List, [], ◌∷◌, ◌++◌, if◌then◌else◌, not, str_eq,
  Option,
}
use cex_go.Prelude.Int.{ℤ, pos, ◌+ℤ◌, ◌-ℤ◌, ltb_ℤ, leb_ℤ}
use cex_go.Database.{
  Db, UserRow, BalanceRow, AssetRow, Tx, Session, ok, err, no_rows, check_violation,
  foreign_key_violation, ◌>>=◌, ◌>>◌, fail_if, unless, round_trip, user_check, balance_check,
}
use cex_go.Database.Table.{select, update}
use cex_go.Database.Statement.{exec_update, guarded_update, exists}

abbrev pub usd : String
usd = "USD"

-- `WHERE id = user`
abbrev pub of_user : ℕ → UserRow → Bool
of_user user r = r.id == user

-- `WHERE user_id = user AND asset = asset`
abbrev pub of_asset : ℕ → String → BalanceRow → Bool
of_asset user asset r = r.user_id == user && str_eq r.asset asset

abbrev pub of_symbol : String → AssetRow → Bool
of_symbol symbol r = str_eq r.symbol symbol

abbrev pub put_users : Db → List UserRow → Db
put_users db rows = record db { users = rows }

abbrev pub put_balances : Db → List BalanceRow → Db
put_balances db rows = record db { balances = rows }

-- `UPDATE users SET f WHERE id = user`
unfoldable pub set_user : ℕ → (UserRow → UserRow) → Tx (Unit {0})
set_user user f = exec_update (λ db. db.users) put_users (of_user user) f user_check

-- The same behind `SELECT … WHERE id = user FOR UPDATE` and a test of the row that was read
unfoldable pub guarded_user : ℕ → (UserRow → Bool) → (UserRow → UserRow) → Tx (Unit {0})
guarded_user user short f =
    guarded_update (λ db. db.users) put_users (of_user user) short f user_check

unfoldable pub guarded_balance :
    ℕ → String → (BalanceRow → Bool) → (BalanceRow → BalanceRow) → Tx (Unit {0})
guarded_balance user asset short f =
    guarded_update (λ db. db.balances) put_balances (of_asset user asset) short f balance_check

-- SET USD_balance = USD_balance - $1, locked_balance = locked_balance + $1
abbrev pub lock_usd_row : ℤ → UserRow → UserRow
lock_usd_row amount r = record r {
  usd_balance = r.usd_balance -ℤ amount;
  locked_balance = r.locked_balance +ℤ amount;
}

abbrev pub unlock_usd_row : ℤ → UserRow → UserRow
unlock_usd_row amount r = record r {
  locked_balance = r.locked_balance -ℤ amount;
  usd_balance = r.usd_balance +ℤ amount;
}

abbrev pub credit_usd_row : ℤ → UserRow → UserRow
credit_usd_row amount r = record r { usd_balance = r.usd_balance +ℤ amount }

abbrev pub debit_usd_row : ℤ → UserRow → UserRow
debit_usd_row amount r = record r { locked_balance = r.locked_balance -ℤ amount }

abbrev pub lock_row : ℤ → BalanceRow → BalanceRow
lock_row amount r = record r { available = r.available -ℤ amount; locked = r.locked +ℤ amount }

abbrev pub unlock_row : ℤ → BalanceRow → BalanceRow
unlock_row amount r = record r { locked = r.locked -ℤ amount; available = r.available +ℤ amount }

unfoldable pub lock_balance_tx : ℕ → String → ℤ → Tx (Unit {0})
lock_balance_tx user asset amount =
    if str_eq asset usd
    then guarded_user user (λ r. ltb_ℤ r.usd_balance amount) (lock_usd_row amount)
    else guarded_balance user asset (λ r. ltb_ℤ r.available amount) (lock_row amount)

unfoldable pub unlock_balance_tx : ℕ → String → ℤ → Tx (Unit {0})
unlock_balance_tx user asset amount =
    unless (leb_ℤ amount (pos 0))
      (guarded_balance user asset (λ r. ltb_ℤ r.locked amount) (unlock_row amount))

abbrev pub credit_row : ℤ → BalanceRow → BalanceRow
credit_row amount r = record r { available = r.available +ℤ amount }

abbrev pub debit_row : ℤ → BalanceRow → BalanceRow
debit_row amount r = record r { locked = r.locked -ℤ amount }

-- The row that an INSERT proposes.
abbrev pub new_balance : ℕ → String → ℤ → BalanceRow
new_balance user asset amount = record {
  user_id = user;
  asset = asset;
  available = amount;
  locked = pos 0;
}

-- INSERT INTO balances … ON CONFLICT (user_id, asset) DO UPDATE SET available = available + $3.
-- The CHECK is on the row that is proposed, then on the row that is stored; the references of a new
-- row must exist.
abbrev pub upsert_row : ℕ → String → ℤ → Option BalanceRow → Tx (Unit {0})
upsert_row user asset amount none s =
    if exists (of_user user) s.db.users && exists (of_symbol asset) s.db.assets
    then (
      ok tt,
      record s { db = put_balances s.db (s.db.balances ++ (new_balance user asset amount ∷ [])) },
    )
    else (err foreign_key_violation, s)
upsert_row user asset amount (some r) s =
    if balance_check (credit_row amount r)
    then (
      ok tt,
      record s {
        db = put_balances s.db (update (of_asset user asset) (credit_row amount) s.db.balances);
      },
    )
    else (err check_violation, s)

unfoldable pub upsert_balance : ℕ → String → ℤ → Tx (Unit {0})
unfolding round_trip
upsert_balance user asset amount = do
  round_trip
  fail_if (not (balance_check (new_balance user asset amount))) check_violation
  λ s. upsert_row user asset amount (select (of_asset user asset) s.db.balances) s

unfoldable pub credit_balance_tx : ℕ → String → ℤ → Tx (Unit {0})
credit_balance_tx user asset amount =
    unless (leb_ℤ amount (pos 0)) (upsert_balance user asset amount)

unfoldable pub credit_usd_tx : ℕ → ℤ → Tx (Unit {0})
credit_usd_tx user amount = unless (leb_ℤ amount (pos 0)) (set_user user (credit_usd_row amount))

unfoldable pub debit_usd_tx : ℕ → ℤ → Tx (Unit {0})
debit_usd_tx user amount =
    unless (leb_ℤ amount (pos 0))
      (guarded_user user (λ r. ltb_ℤ r.locked_balance amount) (debit_usd_row amount))

unfoldable pub unlock_usd_tx : ℕ → ℤ → Tx (Unit {0})
unlock_usd_tx user amount =
    unless (leb_ℤ amount (pos 0))
      (guarded_user user (λ r. ltb_ℤ r.locked_balance amount) (unlock_usd_row amount))

unfoldable pub debit_balance_tx : ℕ → String → ℤ → Tx (Unit {0})
debit_balance_tx user asset amount =
    unless (leb_ℤ amount (pos 0))
      (guarded_balance user asset (λ r. ltb_ℤ r.locked amount) (debit_row amount))
