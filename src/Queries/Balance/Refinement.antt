-- ===== src/Queries/Balance/Refinement.antt =====
-- The queries of db/queries/balance.go that lock, unlock and debit, and operations on a ledger.
use cex_go.Prelude.{
  ℕ, String, Bool, str_eq, eq_iff, ◌≡◌, refl, sym, true, false, Option, none, some, if◌then◌else◌,
}
use mathlib.Core.Path.{subst}
use cex_go.Prelude.Int.{ℤ, pos, ◌+ℤ◌, ◌-ℤ◌, ltb_ℤ, leb_ℤ}
use cex_go.Database.{Db, Session, Tx}
use cex_go.Database.Ensures.{Ensures}
use cex_go.Queries.Balance.{
  usd, guarded_user, guarded_balance, lock_balance_tx, lock_usd_row, lock_row, unlock_usd_tx,
  unlock_usd_row, unlock_balance_tx, unlock_row, debit_usd_tx, debit_usd_row, debit_balance_tx,
  debit_row,
}
use cex_go.Queries.Balance.Ledger.{Account}
use cex_go.Queries.Balance.Steps.{IsStep, guarded_user-IsStep, guarded_balance-IsStep}

-- The abstract operations: an amount that is not there is refused.
abbrev pub locking : ℤ → Account → Option Account
locking amount a =
    if ltb_ℤ a.available amount
    then none
    else some (record { available = a.available -ℤ amount; locked = a.locked +ℤ amount })

abbrev pub unlocking : ℤ → Account → Option Account
unlocking amount a =
    if ltb_ℤ a.locked amount
    then none
    else some (record { available = a.available +ℤ amount; locked = a.locked -ℤ amount })

abbrev pub debiting : ℤ → Account → Option Account
debiting amount a =
    if ltb_ℤ a.locked amount
    then none
    else some (record { available = a.available; locked = a.locked -ℤ amount })

if-Ensures :
    (Q : Unit {0} → Db → Type 0) (c : Bool) (m n : Tx (Unit {0})) (s : Session)
    → (c ≡ true → Ensures Q (m s))
    → (c ≡ false → Ensures Q (n s))
    → Ensures Q ((if c then m else n) s)
if-Ensures Q true m n s h k = h refl
if-Ensures Q false m n s h k = k refl

module _ (user other : ℕ) (asset coin : String) (amount : ℤ) (s : Session) where
  on_asset-IsStep :
      (op : Account → Option Account) (m n : Tx (Unit {0}))
      → Ensures (λ _ db. IsStep op user usd other coin s.db db) (m s)
      → (str_eq asset usd ≡ false → Ensures (λ _ db. IsStep op user asset other coin s.db db) (n s))
      → Ensures
          (λ _ db. IsStep op user asset other coin s.db db)
          ((if str_eq asset usd then m else n) s)
  on_asset-IsStep op m n h k =
      if-Ensures (λ _ db. IsStep op user asset other coin s.db db) (str_eq asset usd) m n s
        (λ e.
          subst (λ a. Ensures (λ _ db. IsStep op user a other coin s.db db) (m s))
            (sym ((eq_iff asset usd).0 e)) h)
        k

  -- `LockBalanceTx` implements the locking of an amount on the ledger of accounts, for USD and for
  -- every other asset: if it succeeds, the account was there and had the amount available, it now has
  -- that amount locked, and every other account is as it was.
  pub lock_balance_tx-IsStep :
      Ensures
        (λ _ db. IsStep (locking amount) user asset other coin s.db db)
        (lock_balance_tx user asset amount s)
  unfolding lock_balance_tx
  lock_balance_tx-IsStep =
      on_asset-IsStep (locking amount)
        (guarded_user user (λ r. ltb_ℤ r.usd_balance amount) (lock_usd_row amount))
        (guarded_balance user asset (λ r. ltb_ℤ r.available amount) (lock_row amount))
        (guarded_user-IsStep (locking amount) user other coin (λ r. ltb_ℤ r.usd_balance amount)
          (lock_usd_row amount) s (λ r. refl) λ r h. rw h refl)
        λ e.
          guarded_balance-IsStep (locking amount) user other asset coin
            (λ r. ltb_ℤ r.available amount) (lock_row amount) s e (λ r. refl) (λ r. refl)
            λ r h. rw h refl

  -- For a positive amount `UnlockUSDTx`, for USD, and `UnlockBalanceTx`, for any other asset, implement
  -- the unlocking of the amount on the ledger of accounts, and `DebitUSDTx` and `DebitBalanceTx` its
  -- debiting: if they succeed, the account was there and had the amount locked, it has given it back or
  -- lost it, and every other account is as it was.
  pub unlock_debit-IsStep :
      leb_ℤ amount (pos 0) ≡ false
      → Ensures
          (λ _ db. IsStep (unlocking amount) user asset other coin s.db db)
          ((if str_eq asset usd
              then unlock_usd_tx user amount
              else unlock_balance_tx user asset amount)
            s)
        × Ensures
            (λ _ db. IsStep (debiting amount) user asset other coin s.db db)
            ((if str_eq asset usd
                then debit_usd_tx user amount
                else debit_balance_tx user asset amount)
              s)
  unfolding unlock_usd_tx unlock_balance_tx debit_usd_tx debit_balance_tx
  unlock_debit-IsStep p = (
    on_asset-IsStep (unlocking amount) (unlock_usd_tx user amount)
        (unlock_balance_tx user asset amount)
        (rw p (
          guarded_user-IsStep (unlocking amount) user other coin
            (λ r. ltb_ℤ r.locked_balance amount) (unlock_usd_row amount) s (λ r. refl)
            λ r h. rw h refl))
        (λ e. rw p (
          guarded_balance-IsStep (unlocking amount) user other asset coin
            (λ r. ltb_ℤ r.locked amount) (unlock_row amount) s e (λ r. refl) (λ r. refl)
            λ r h. rw h refl)),
    on_asset-IsStep (debiting amount) (debit_usd_tx user amount)
        (debit_balance_tx user asset amount)
        (rw p (
          guarded_user-IsStep (debiting amount) user other coin (λ r. ltb_ℤ r.locked_balance amount)
            (debit_usd_row amount) s (λ r. refl) λ r h. rw h refl))
        λ e. rw p (
          guarded_balance-IsStep (debiting amount) user other asset coin
            (λ r. ltb_ℤ r.locked amount) (debit_row amount) s e (λ r. refl) (λ r. refl)
            λ r h. rw h refl),
  )
