-- ===== src/Queries/Alone.antt =====
-- db/queries/balance.go, the queries that run in a transaction of their own.
pub mod Atomic
use cex_go.Prelude.{ℕ, String, str_eq, if◌then◌else◌}
use cex_go.Prelude.Int.{ℤ, ltb_ℤ}
use cex_go.Database.{Tx, ◌>>=◌, ◌>>◌, Session, Result, ok, err}
use cex_go.Database.Statement.{in_transaction}
use cex_go.Queries.Balance.{
  guarded_user, guarded_balance, set_user, upsert_balance, lock_balance_tx, lock_usd_row, lock_row,
  unlock_row, debit_row, debit_usd_row, credit_usd_row, usd,
}

unfoldable pub lock_balance : ℕ → String → ℤ → Tx (Unit {0})
lock_balance user asset amount = in_transaction (
    if str_eq asset usd
    then guarded_user user (λ r. ltb_ℤ r.usd_balance amount) (lock_usd_row amount)
    else guarded_balance user asset (λ r. ltb_ℤ r.available amount) (lock_row amount))

unfoldable pub unlock_balance : ℕ → String → ℤ → Tx (Unit {0})
unlock_balance user asset amount =
    in_transaction (guarded_balance user asset (λ r. ltb_ℤ r.locked amount) (unlock_row amount))

unfoldable pub transfer_from_locked : ℕ → ℕ → String → ℤ → Tx (Unit {0})
transfer_from_locked from_user to_user asset amount = in_transaction (do
  guarded_balance from_user asset (λ r. ltb_ℤ r.locked amount) (debit_row amount)
  upsert_balance to_user asset amount)

unfoldable pub credit_balance : ℕ → String → ℤ → Tx (Unit {0})
credit_balance user asset amount = upsert_balance user asset amount

unfoldable pub credit_usd : ℕ → ℤ → Tx (Unit {0})
credit_usd user amount = set_user user (credit_usd_row amount)

unfoldable pub debit_usd : ℕ → ℤ → Tx (Unit {0})
debit_usd user amount =
    in_transaction (guarded_user user (λ r. ltb_ℤ r.locked_balance amount) (debit_usd_row amount))

unfoldable pub debit_balance : ℕ → String → ℤ → Tx (Unit {0})
debit_balance user asset amount =
    in_transaction (guarded_balance user asset (λ r. ltb_ℤ r.locked amount) (debit_row amount))
