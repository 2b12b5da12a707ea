-- ===== src/Queries/Balance/Ledger.antt =====
-- The balances as a ledger: a user has at most one account for each asset, with an amount that is
-- available and one that is locked. USD accounts stand in the users table, all others in balances.
use cex_go.Prelude.{
  ℕ, String, Bool-cases, ◌&&◌, ◌==◌, inl, inr, str_eq, eq_iff, ◌≡◌, refl, ◌∙◌, true, Option, none,
  some, List, if◌then◌else◌, arith,
}
use cex_go.Prelude.Int.{ℤ}
use cex_go.Database.{Db, UserRow, BalanceRow}
use cex_go.Database.Table.{select, update, select-update_self, select-update_other, select-holds}
use cex_go.Queries.Balance.{usd, of_user, of_asset}

pub record Account : Type 0 where
  pub available : ℤ
  pub locked : ℤ

abbrev pub usd_account : Option UserRow → Option Account
usd_account none = none
usd_account (some r) = some (record { available = r.usd_balance; locked = r.locked_balance })

abbrev pub coin_account : Option BalanceRow → Option Account
coin_account none = none
coin_account (some r) = some (record { available = r.available; locked = r.locked })

abbrev pub Ledger : Type 0
Ledger = ℕ → String → Option Account

-- The ledger that a database stands for
abbrev pub ledger_of : Db → Ledger
ledger_of db user asset =
    if str_eq asset usd
    then usd_account (select (of_user user) db.users)
    else coin_account (select (of_asset user asset) db.balances)

-- The abstract operation: one account takes a new value and every other one keeps its own.
abbrev pub with_account : ℕ → String → Account → Ledger → Ledger
with_account user asset account l other coin =
    if (user == other) && str_eq asset coin then some account else l other coin

pub select-update_user :
    (user other : ℕ) (f : UserRow → UserRow) (rows : List UserRow) (r : UserRow)
    → ((x : UserRow) → (f x).id ≡ x.id)
    → select (of_user user) rows ≡ some r
    → select (of_user other) (update (of_user user) f rows)
      ≡ (if user == other then some (f r) else select (of_user other) rows)
select-update_user user other f rows r k e = elim (Bool-cases (user == other)) [
  | inl h ↦
      let same : user ≡ other = ground (arith, h) in
      rw (h, ← same)
        (select-update_self (of_user user) f rows r e
          (rw (k r) (select-holds (of_user user) rows r e)))
  | inr h ↦ rw h (
      select-update_other (of_user user) (of_user other) f rows
        λ x p. (ground (arith, h, p), rw (k x) (ground (arith, h, p))))
]

of_asset-same :
    (user other : ℕ) (asset coin : String) (x : BalanceRow)
    → of_asset user asset x ≡ true
    → of_asset other coin x ≡ ((user == other) && str_eq asset coin)
of_asset-same user other asset coin x p =
    let id : x.user_id ≡ user = ground (arith, p) in
    let name : x.asset ≡ asset = (eq_iff x.asset asset).0 (ground (arith, p)) in rw (id, name) refl

pub select-update_coin :
    (user other : ℕ) (asset coin : String) (f : BalanceRow → BalanceRow) (rows : List BalanceRow)
    (r : BalanceRow)
    → ((x : BalanceRow) → (f x).user_id ≡ x.user_id)
    → ((x : BalanceRow) → (f x).asset ≡ x.asset)
    → select (of_asset user asset) rows ≡ some r
    → select (of_asset other coin) (update (of_asset user asset) f rows) ≡ (
        if (user == other) && str_eq asset coin
        then some (f r)
        else select (of_asset other coin) rows)
select-update_coin user other asset coin f rows r k n e =
    elim (Bool-cases ((user == other) && str_eq asset coin)) [
      | inl h ↦
          let id : user ≡ other = ground (arith, h) in
          let name : asset ≡ coin = (eq_iff asset coin).0 (ground (arith, h)) in
          rw (h, ← id, ← name)
            (select-update_self (of_asset user asset) f rows r e
              (rw (k r, n r) (select-holds (of_asset user asset) rows r e)))
      | inr h ↦ rw h (
          select-update_other (of_asset user asset) (of_asset other coin) f rows λ x p.
            let same = of_asset-same user other asset coin x p ∙ h in (same, rw (k x, n x) same))
    ]
