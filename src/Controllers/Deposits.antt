-- ===== src/Controllers/Deposits.antt =====
-- internal/controllers/balance.go: `Deposit`.
use cex_go.Prelude.{
  ℕ, String, Bool-cases, ◌≡◌, true, Option, none, some, inl, inr, str_eq, if◌then◌else◌,
}
use cex_go.Prelude.Int.{ℤ, pos}
use cex_go.Database.{user_check, Db, Session, Tx}
use cex_go.Database.Statement.{exists}
use cex_go.Database.Ensures.{Ensures-mono, exec_update-Ensures}
use cex_go.Queries.Balance.{usd, of_user, put_users, credit_usd_row, set_user}
use cex_go.Queries.Balance.Totals.{Moved, share}
use cex_go.Queries.Balance.Moves.{upsert_balance-Moved, updated-Moved}
use cex_go.Queries.Alone.{credit_usd, credit_balance}
use cex_go.Controllers.Handlers.{Handler, answer, refuse}
use cex_go.Controllers.Orders.Money.{WhenDone, answer-WhenDone}

pub record DepositRequest : Type 0 where
  pub asset : String
  pub amount : ℤ

-- The request is `none` where gin's binding refuses the body, the user where the context has none.
unfoldable pub deposit : Option DepositRequest → Option ℕ → Handler (Unit {0})
deposit none user = refuse 400
deposit (some req) none = refuse 401
deposit (some req) (some user) = answer 500 (
    if str_eq req.asset usd
    then credit_usd user req.amount
    else credit_balance user req.asset req.amount)

-- What a deposit of an amount of `asset` adds to the USD of all users
abbrev pub usd_share : String → ℤ → ℤ
usd_share asset amount = if str_eq asset usd then amount else pos 0

-- What it adds to the units of `a` in all balances
abbrev pub balance_share : String → String → ℤ → ℤ
balance_share a asset amount = if str_eq asset usd then pos 0 else share a asset amount

module _ (a : String) where
  -- `Deposit` of an amount, by a user who is there, if it is answered with success: a deposit of USD
  -- adds the amount to the USD of all users and nothing to the balances, and a deposit of another asset
  -- adds the amount to the units of that asset in all balances, and nothing to the USD or to other
  -- assets.
  pub deposit-Moved :
      (req : DepositRequest) (user : ℕ) (s : Session)
      → exists (of_user user) s.db.users ≡ true
      → WhenDone
          (Moved a (usd_share req.asset req.amount) (balance_share a req.asset req.amount) s.db)
          (deposit (some req) (some user) s)
  unfolding deposit credit_usd credit_balance set_user
  deposit-Moved req user s there =
      let Q : Db → Type 0 =
        Moved a (usd_share req.asset req.amount) (balance_share a req.asset req.amount) s.db in
      let credit : Tx (Unit {0}) =
        if str_eq req.asset usd
        then credit_usd user req.amount
        else credit_balance user req.asset req.amount in
      answer-WhenDone Q 500 credit s (elim (Bool-cases (str_eq req.asset usd)) [
        | inr h ↦ rw h (upsert_balance-Moved a user req.asset req.amount s)
        | inl h ↦ rw h (
            Ensures-mono _ (λ _ db. Moved a req.amount (pos 0) s.db db) _
              (exec_update-Ensures (λ db. db.users) put_users (of_user user)
                (credit_usd_row req.amount) user_check s)
              λ _ db u. updated-Moved a user req.amount s.db db there u)
      ])
