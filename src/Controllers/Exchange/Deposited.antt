-- ===== src/Controllers/Exchange/Deposited.antt =====
-- What `Deposit` keeps of the tables.
use cex_go.Prelude.{ℕ, String, Bool-cases, not, ◌&&◌, refl, Option, none, some, inl, inr, str_eq}
use cex_go.Prelude.Int.{ℤ}
use cex_go.Database.{
  Db, BalanceRow, ◌>>◌, Session, Tx, round_trip, fail_if, check_violation, balance_check,
  user_check,
}
use cex_go.Database.Table.{select}
use cex_go.Database.Statement.{exists}
use cex_go.Database.Ensures.{round_trip-keeps}
use cex_go.Database.Atomic.{
  KeptOnError, kept_or, bind-KeptOnError, fail_if-KeptOnError, exec_update-KeptOnError,
}
use cex_go.Queries.Balance.{
  usd, of_user, of_asset, of_symbol, put_users, credit_row, credit_usd_row, new_balance, set_user,
  upsert_row, upsert_balance,
}
use cex_go.Queries.Kept.{IsKept}
use cex_go.Queries.Balance.Keeping.{set_user-Ends, upsert_balance-Ends}
use cex_go.Queries.Alone.{credit_usd, credit_balance}
use cex_go.Controllers.Deposits.{DepositRequest, deposit}

upsert_row-KeptOnError :
    (user : ℕ) (asset : String) (amount : ℤ) (o : Option BalanceRow) (s : Session)
    → KeptOnError s.db (upsert_row user asset amount o s)
upsert_row-KeptOnError user asset amount none s =
    elim (Bool-cases (exists (of_user user) s.db.users && exists (of_symbol asset) s.db.assets)) [
      | inl h ↦ rw h tt
      | inr h ↦ rw h refl
    ]
upsert_row-KeptOnError user asset amount (some r) s =
    elim (Bool-cases (balance_check (credit_row amount r))) [ inl h ↦ rw h tt | inr h ↦ rw h refl ]

pub upsert_balance-KeptOnError :
    (user : ℕ) (asset : String) (amount : ℤ) (s : Session)
    → KeptOnError s.db (upsert_balance user asset amount s)
unfolding upsert_balance
upsert_balance-KeptOnError user asset amount s =
    let write : Tx (Unit {0}) =
      λ s'. upsert_row user asset amount (select (of_asset user asset) s'.db.balances) s' in
    bind-KeptOnError s.db (round_trip s)
      (λ _. fail_if (not (balance_check (new_balance user asset amount))) check_violation >> write)
      (round_trip-keeps s)
      λ _ s' e.
        fail_if-KeptOnError s.db (not (balance_check (new_balance user asset amount)))
          check_violation write s' e
          (rw (← e) (
            upsert_row-KeptOnError user asset amount (select (of_asset user asset) s'.db.balances)
              s'))

module _ (P : Db → Type 0) (kept : IsKept P) where
  credit_usd-keeps :
      (user : ℕ) (amount : ℤ) (s : Session) → P s.db → P (credit_usd user amount s).1.db
  unfolding credit_usd set_user
  credit_usd-keeps user amount s v =
      kept_or P s.db (credit_usd user amount s) v
        (exec_update-KeptOnError (λ db. db.users) put_users (of_user user) (credit_usd_row amount)
          user_check s)
        (set_user-Ends P kept user (credit_usd_row amount) s (λ q. refl) v)

  credit_balance-keeps :
      (user : ℕ) (asset : String) (amount : ℤ) (s : Session)
      → P s.db
      → P (credit_balance user asset amount s).1.db
  unfolding credit_balance
  credit_balance-keeps user asset amount s v =
      kept_or P s.db (credit_balance user asset amount s) v
        (upsert_balance-KeptOnError user asset amount s)
        (upsert_balance-Ends P kept user asset amount s v)

  pub deposit-keeps :
      (req : Option DepositRequest) (user : Option ℕ) (s : Session)
      → P s.db
      → P (deposit req user s).1.db
  unfolding deposit
  deposit-keeps none user s v = v
  deposit-keeps (some req) none s v = v
  deposit-keeps (some req) (some user) s v = elim (Bool-cases (str_eq req.asset usd)) [
    | inl h ↦ rw h (credit_usd-keeps user req.amount s v)
    | inr h ↦ rw h (credit_balance-keeps user req.asset req.amount s v)
  ]
