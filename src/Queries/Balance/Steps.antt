-- ===== src/Queries/Balance/Steps.antt =====
-- The guarded UPDATEs of db/queries/balance.go, as steps of one account of the ledger.
use cex_go.Prelude.{
  ℕ, String, Bool, Bool-cases, ◌&&◌, ◌==◌, inl, inr, str_eq, eq_iff, ◌≡◌, refl, ap, sym, ◌∙◌, true,
  false, Option, some, if◌then◌else◌,
}
use cex_go.Database.{Db, UserRow, BalanceRow, Session, user_check, balance_check}
use cex_go.Database.Table.{select}
use cex_go.Database.Ensures.{Ensures, Ensures-mono, IsGuarded, guarded_update-Ensures}
use cex_go.Queries.Balance.{
  usd, of_user, of_asset, put_users, put_balances, guarded_user, guarded_balance,
}
use cex_go.Queries.Balance.Ledger.{
  Account, usd_account, coin_account, ledger_of, with_account, select-update_user,
  select-update_coin,
}

-- The account was there, the operation did not refuse it, and the ledger has its result in place of
-- it: seen at one account of the ledger.
abbrev pub IsStep : (Account → Option Account) → ℕ → String → ℕ → String → Db → Db → Type 0
IsStep op user asset other coin before db =
    (a : Account) × (b : Account) × (ledger_of before user asset ≡ some a)
    × (op a ≡ some b)
    × (ledger_of db other coin ≡ with_account user asset b (ledger_of before) other coin)

abbrev pub account_of_user : UserRow → Account
account_of_user r = record { available = r.usd_balance; locked = r.locked_balance }

abbrev pub account_of_coin : BalanceRow → Account
account_of_coin r = record { available = r.available; locked = r.locked }

str_eq_comm : (a b : String) → str_eq a b ≡ str_eq b a
str_eq_comm a b = elim (Bool-cases (str_eq a b)) [
  | inl h ↦ rw ((eq_iff a b).0 h) refl
  | inr h ↦ elim (Bool-cases (str_eq b a)) [
    | inl k ↦ rw ((eq_iff b a).0 k) refl
    | inr k ↦ h ∙ sym k
  ]
]

choose_usd :
    (b c : Bool) (x y : Option UserRow)
    → c ≡ true
    → usd_account (if b then x else y) ≡ (if b && c then usd_account x else usd_account y)
choose_usd true true x y h = refl
choose_usd false true x y h = refl
choose_usd b false x y h = absurd (cc h)

choose_coin :
    (b : Bool) (x y : Option BalanceRow)
    → coin_account (if b then x else y) ≡ (if b then coin_account x else coin_account y)
choose_coin true x y = refl
choose_coin false x y = refl

choose_none : {A : Type 0} (b c : Bool) (x y : A) → c ≡ false → y ≡ (if b && c then x else y)
choose_none true false x y h = refl
choose_none false false x y h = refl
choose_none b true x y h = absurd (cc h)

user-IsStep :
    (op : Account → Option Account) (user other : ℕ) (coin : String) (short : UserRow → Bool)
    (f : UserRow → UserRow) (before db : Db)
    → ((r : UserRow) → (f r).id ≡ r.id)
    → ((r : UserRow) → short r ≡ false → op (account_of_user r) ≡ some (account_of_user (f r)))
    → IsGuarded (λ db. db.users) put_users (of_user user) short f user_check before db
    → IsStep op user usd other coin before db
user-IsStep op user other coin short f before db k h (r, e, n, c, d) = (
  account_of_user r,
  account_of_user (f r),
  ap usd_account e,
  h r n,
  rw d (elim (Bool-cases (str_eq coin usd)) [
    | inl q ↦ rw q (
        ap usd_account (select-update_user user other f before.users r k e)
        ∙ choose_usd (user == other) (str_eq usd coin) (some (f r))
            (select (of_user other) before.users) (str_eq_comm usd coin ∙ q))
    | inr q ↦ rw q (
        choose_none (user == other) (str_eq usd coin) (some (account_of_user (f r)))
          (coin_account (select (of_asset other coin) before.balances)) (str_eq_comm usd coin ∙ q))
  ]),
)

coin-IsStep :
    (op : Account → Option Account) (user other : ℕ) (asset coin : String)
    (short : BalanceRow → Bool) (f : BalanceRow → BalanceRow) (before db : Db)
    → str_eq asset usd ≡ false
    → ((r : BalanceRow) → (f r).user_id ≡ r.user_id)
    → ((r : BalanceRow) → (f r).asset ≡ r.asset)
    → ((r : BalanceRow) → short r ≡ false → op (account_of_coin r) ≡ some (account_of_coin (f r)))
    → IsGuarded
        (λ db. db.balances)
        put_balances
        (of_asset user asset)
        short
        f
        balance_check
        before
        db
    → IsStep op user asset other coin before db
coin-IsStep op user other asset coin short f before db u k m h (r, e, n, c, d) = (
  account_of_coin r,
  account_of_coin (f r),
  rw u (ap coin_account e),
  h r n,
  rw d (elim (Bool-cases (str_eq coin usd)) [
    | inr q ↦ rw q (
        ap coin_account (select-update_coin user other asset coin f before.balances r k m e)
        ∙ choose_coin ((user == other) && str_eq asset coin) (some (f r))
            (select (of_asset other coin) before.balances))
    | inl q ↦ rw q (
        choose_none (user == other) (str_eq asset coin) (some (account_of_coin (f r)))
          (usd_account (select (of_user other) before.users))
          (ap (str_eq asset) ((eq_iff coin usd).0 q) ∙ u))
  ]),
)

pub guarded_user-IsStep :
    (op : Account → Option Account) (user other : ℕ) (coin : String) (short : UserRow → Bool)
    (f : UserRow → UserRow) (s : Session)
    → ((r : UserRow) → (f r).id ≡ r.id)
    → ((r : UserRow) → short r ≡ false → op (account_of_user r) ≡ some (account_of_user (f r)))
    → Ensures (λ _ db. IsStep op user usd other coin s.db db) (guarded_user user short f s)
unfolding guarded_user
guarded_user-IsStep op user other coin short f s k h =
    Ensures-mono
      (λ _ db. IsGuarded (λ db. db.users) put_users (of_user user) short f user_check s.db db)
      (λ _ db. IsStep op user usd other coin s.db db) (guarded_user user short f s)
      (guarded_update-Ensures (λ db. db.users) put_users (of_user user) short f user_check s)
      λ _ db g. user-IsStep op user other coin short f s.db db k h g

pub guarded_balance-IsStep :
    (op : Account → Option Account) (user other : ℕ) (asset coin : String)
    (short : BalanceRow → Bool) (f : BalanceRow → BalanceRow) (s : Session)
    → str_eq asset usd ≡ false
    → ((r : BalanceRow) → (f r).user_id ≡ r.user_id)
    → ((r : BalanceRow) → (f r).asset ≡ r.asset)
    → ((r : BalanceRow) → short r ≡ false → op (account_of_coin r) ≡ some (account_of_coin (f r)))
    → Ensures
        (λ _ db. IsStep op user asset other coin s.db db)
        (guarded_balance user asset short f s)
unfolding guarded_balance
guarded_balance-IsStep op user other asset coin short f s u k m h =
    Ensures-mono
      (λ _ db.
        IsGuarded (λ db. db.balances) put_balances (of_asset user asset) short f balance_check s.db
          db)
      (λ _ db. IsStep op user asset other coin s.db db) (guarded_balance user asset short f s)
      (guarded_update-Ensures (λ db. db.balances) put_balances (of_asset user asset) short f
        balance_check s)
      λ _ db g. coin-IsStep op user other asset coin short f s.db db u k m h g
