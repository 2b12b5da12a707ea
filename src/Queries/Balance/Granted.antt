-- ===== src/Queries/Balance/Granted.antt =====
-- `LockBalanceTx` of db/queries/balance.go, where the server answers.
use mathlib.Core.Option.{some-injective}
use cex_go.Prelude.{
  ℕ, String, Bool-cases, inl, inr, str_eq, ◌≡◌, refl, ap, true, false, Option, none, some, List,
  ◌∷◌, arith, ◌&&◌,
}
use cex_go.Prelude.Int.{ℤ, pos, ◌+ℤ◌, ◌-ℤ◌, ◌≤ℤ◌, ltb_ℤ, leb_ℤ, +ℤ_parts, -ℤ_parts}
use cex_go.Database.{Db, UserRow, BalanceRow, Tick, ok, user_check, balance_check}
use cex_go.Database.Table.{select, update}
use cex_go.Database.Served.{session, guarded_update-served}
use cex_go.Queries.Balance.{
  usd, of_user, of_asset, put_users, put_balances, guarded_user, guarded_balance, lock_balance_tx,
  lock_usd_row, lock_row,
}
use cex_go.Queries.Balance.Ledger.{Account, usd_account, coin_account, ledger_of}

usd_account-some :
    (o : Option UserRow) (a : Account)
    → usd_account o ≡ some a
    → (r : UserRow) × (o ≡ some r) × (r.usd_balance ≡ a.available) × (r.locked_balance ≡ a.locked)
usd_account-some none a h = absurd (cc h)
usd_account-some (some r) a h =
    let same =
      some-injective (record { available = r.usd_balance; locked = r.locked_balance }) a h in
    (r, refl, ap (λ x. x.available) same, ap (λ x. x.locked) same)

coin_account-some :
    (o : Option BalanceRow) (a : Account)
    → coin_account o ≡ some a
    → (r : BalanceRow) × (o ≡ some r) × (r.available ≡ a.available) × (r.locked ≡ a.locked)
coin_account-some none a h = absurd (cc h)
coin_account-some (some r) a h =
    let same = some-injective (record { available = r.available; locked = r.locked }) a h in
    (r, refl, ap (λ x. x.available) same, ap (λ x. x.locked) same)

-- The CHECKs hold behind the locking.
lock-checks :
    (available locked amount : ℤ)
    → pos 0 ≤ℤ amount
    → pos 0 ≤ℤ locked
    → amount ≤ℤ available
    → (leb_ℤ (pos 0) (available -ℤ amount) && leb_ℤ (pos 0) (locked +ℤ amount)) ≡ true
lock-checks available locked amount h k n =
    ground (arith, -ℤ_parts available amount, +ℤ_parts locked amount, h, k, n)

enough : (available amount : ℤ) → amount ≤ℤ available → ltb_ℤ available amount ≡ false
enough available amount h = ground (arith, h)

-- If the server answers, `LockBalanceTx` succeeds for every account that has the amount available: an
-- amount that is not negative, of a user's USD or other asset, of which no negative amount is locked.
pub lock_balance_tx-granted :
    (user : ℕ) (asset : String) (amount : ℤ) (db : Db) (t u : Tick) (ts : List Tick) (a : Account)
    → ledger_of db user asset ≡ some a
    → pos 0 ≤ℤ amount
    → pos 0 ≤ℤ a.locked
    → amount ≤ℤ a.available
    → t.fails ≡ false
    → u.fails ≡ false
    → (after : Db) × (lock_balance_tx user asset amount (session db (t ∷ u ∷ ts))
        ≡ (ok tt, session after ts))
unfolding lock_balance_tx guarded_user guarded_balance
lock_balance_tx-granted user asset amount db t u ts a l h k n tf uf =
    elim (Bool-cases (str_eq asset usd)) [
      | inl e ↦
          let (r, found, av, lo) =
            usd_account-some (select (of_user user) db.users) a (rw e at l) in
          (
            put_users db (update (of_user user) (lock_usd_row amount) db.users),
            rw e (
                guarded_update-served (λ db. db.users) put_users db t u ts (of_user user)
                  (λ r. ltb_ℤ r.usd_balance amount) (lock_usd_row amount) user_check r tf uf found
                  (rw av (enough a.available amount n))
                  (rw (av, lo) (lock-checks a.available a.locked amount h k n))),
          )
      | inr e ↦
          let (r, found, av, lo) =
            coin_account-some (select (of_asset user asset) db.balances) a (rw e at l) in
          (
            put_balances db (update (of_asset user asset) (lock_row amount) db.balances),
            rw e (
                guarded_update-served (λ db. db.balances) put_balances db t u ts
                  (of_asset user asset) (λ r. ltb_ℤ r.available amount) (lock_row amount)
                  balance_check r tf uf found (rw av (enough a.available amount n))
                  (rw (av, lo) (lock-checks a.available a.locked amount h k n))),
          )
    ]
