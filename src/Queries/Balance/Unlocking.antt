-- ===== src/Queries/Balance/Unlocking.antt =====
-- Locking an amount and unlocking it again.
use cex_go.Prelude.{◌∙◌, ℕ, String, Bool, ◌≡◌, refl, false, List, str_eq, arith}
use cex_go.Prelude.Int.{ℤ, pos, ◌+ℤ◌, ◌-ℤ◌, ◌<ℤ◌, ltb_ℤ, leb_ℤ, int_laws}
use cex_go.Database.{Db, UserRow, BalanceRow, Session, ◌>>◌, user_check, balance_check}
use cex_go.Database.Table.{update, select-holds, update-update_back}
use cex_go.Database.Statement.{guarded_update}
use cex_go.Database.Ensures.{Ensures, Ensures-mono, Ensures-bind, IsGuarded, guarded_update-Ensures}
use cex_go.Queries.Balance.{
  put_users, put_balances, of_user, of_asset, guarded_user, guarded_balance, lock_row, unlock_row,
  lock_usd_row, unlock_usd_row, lock_balance_tx, unlock_balance_tx, unlock_usd_tx, usd,
}

unlock_row-lock_row : (amount : ℤ) (r : BalanceRow) → unlock_row amount (lock_row amount r) ≡ r
unlock_row-lock_row amount r =
    let e : r.available -ℤ amount +ℤ amount ≡ r.available = omega int_laws in
    let k : r.locked +ℤ amount -ℤ amount ≡ r.locked = omega int_laws in rw (e, k) refl

unlock_usd_row-lock_usd_row :
    (amount : ℤ) (r : UserRow) → unlock_usd_row amount (lock_usd_row amount r) ≡ r
unlock_usd_row-lock_usd_row amount r =
    let e : r.usd_balance -ℤ amount +ℤ amount ≡ r.usd_balance = omega int_laws in
    let k : r.locked_balance +ℤ amount -ℤ amount ≡ r.locked_balance = omega int_laws in
    rw (e, k) refl

positive_leb : (amount : ℤ) → pos 0 <ℤ amount → leb_ℤ amount (pos 0) ≡ false
positive_leb amount h = ground arith

module _ {R : Type 0} (get : Db → List R) (put : Db → List R → Db) (p : R → Bool)
    (check : R → Bool) where
  -- A guarded update, and one that undoes it
  guarded_update_back :
      (short short' : R → Bool) (f g : R → R) (s : Session)
      → ((db : Db) (rs : List R) → get (put db rs) ≡ rs)
      → ((db : Db) (rs qs : List R) → put (put db rs) qs ≡ put db qs)
      → ((db : Db) → put db (get db) ≡ db)
      → ((r : R) → p (f r) ≡ p r)
      → ((r : R) → g (f r) ≡ r)
      → Ensures
          (λ _ db. db ≡ s.db)
          ((guarded_update get put p short f check >> guarded_update get put p short' g check) s)
  guarded_update_back short short' f g s get_put put_put put_get keeps undoes =
      Ensures-bind (λ _ db. IsGuarded get put p short f check s.db db) (λ _ db. db ≡ s.db)
        (guarded_update get put p short f check) (λ _. guarded_update get put p short' g check) s
        (guarded_update-Ensures get put p short f check s)
        λ _ s' (r, found, _, _, e).
          Ensures-mono (λ _ db. IsGuarded get put p short' g check s'.db db) (λ _ db. db ≡ s.db)
            (guarded_update get put p short' g check s')
            (guarded_update-Ensures get put p short' g check s')
            λ _ db (_, _, _, _, e').
              let back : update p g (update p f (get s.db)) ≡ get s.db =
                update-update_back p f g (get s.db) r found
                  (keeps r ∙ select-holds p (get s.db) r found) (undoes r) in
              rw
                (
                  e',
                  e,
                  get_put s.db (update p f (get s.db)),
                  back,
                  put_put s.db (update p f (get s.db)) (get s.db),
                )
                (put_get s.db)

-- `LockBalanceTx` of a positive amount of an asset that is not USD, and then `UnlockBalanceTx` of the
-- same amount: if both succeed the database is as it was.
pub unlock_balance_tx-lock_balance_tx :
    (user : ℕ) (asset : String) (amount : ℤ) (s : Session)
    → str_eq asset usd ≡ false
    → pos 0 <ℤ amount
    → Ensures
        (λ _ db. db ≡ s.db)
        ((lock_balance_tx user asset amount >> unlock_balance_tx user asset amount) s)
unfolding lock_balance_tx unlock_balance_tx guarded_balance
unlock_balance_tx-lock_balance_tx user asset amount s other positive =
    rw (other, positive_leb amount positive)
      (guarded_update_back (λ db. db.balances) put_balances (of_asset user asset) balance_check
        (λ r. ltb_ℤ r.available amount) (λ r. ltb_ℤ r.locked amount) (lock_row amount)
        (unlock_row amount) s (λ _ _. refl) (λ _ _ _. refl) (λ _. refl) (λ _. refl)
        (unlock_row-lock_row amount))

-- `LockBalanceTx` of a positive amount of USD, and then `UnlockUSDTx` of the same amount: if both
-- succeed the database is as it was.
pub unlock_usd_tx-lock_balance_tx :
    (user : ℕ) (amount : ℤ) (s : Session)
    → pos 0 <ℤ amount
    → Ensures (λ _ db. db ≡ s.db) ((lock_balance_tx user usd amount >> unlock_usd_tx user amount) s)
unfolding lock_balance_tx unlock_usd_tx guarded_user
unlock_usd_tx-lock_balance_tx user amount s positive = rw (positive_leb amount positive) (
    guarded_update_back (λ db. db.users) put_users (of_user user) user_check
      (λ r. ltb_ℤ r.usd_balance amount) (λ r. ltb_ℤ r.locked_balance amount) (lock_usd_row amount)
      (unlock_usd_row amount) s (λ _ _. refl) (λ _ _ _. refl) (λ _. refl) (λ _. refl)
      (unlock_usd_row-lock_usd_row amount))
