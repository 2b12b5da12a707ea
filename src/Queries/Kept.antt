-- ===== src/Queries/Kept.antt =====
-- What the statements of db/queries keep: a property of the tables that every change of a row keeps.
use cex_go.Prelude.{Bool, ◌≡◌, true, some, List, [], ◌∷◌, ◌++◌}
use cex_go.Prelude.Int.{pos}
use cex_go.Models.{Market}
use cex_go.Database.{
  Db, UserRow, BalanceRow, OrderRow, TradeRow, AssetRow, Session, Tx, ◌>>=◌, unless, user_check,
  balance_check,
}
use cex_go.Database.Table.{select, update}
use cex_go.Database.Ensures.{Ensures, Ensures-bind, Ensures-unless}
use cex_go.Queries.Balance.{put_users, put_balances}
use cex_go.Queries.Order.{put_orders, put_markets, order_known}
use cex_go.Queries.Trades.{put_trades}
use cex_go.Queries.Assets.{put_assets}

-- A new user has no USD, and the markets and the assets count for nothing.
pub record IsStored (P : Db → Type 0) : Type 0 where
  pub adds_user :
      (db : Db) (r : UserRow)
      → user_check r ≡ true
      → r.usd_balance ≡ pos 0
      → r.locked_balance ≡ pos 0
      → P db
      → P (put_users db (db.users ++ (r ∷ [])))
  pub stores_markets : (db : Db) (rows : List Market) → P db → P (put_markets db rows)
  pub stores_assets : (db : Db) (rows : List AssetRow) → P db → P (put_assets db rows)

-- A row that is changed or added meets its CHECKs, a user keeps the id and an order the user, and a
-- new order has its references.
pub record IsKept (P : Db → Type 0) : Type 0 where
  pub changes_user :
      (db : Db) (p : UserRow → Bool) (f : UserRow → UserRow) (r : UserRow)
      → select p db.users ≡ some r
      → user_check (f r) ≡ true
      → ((q : UserRow) → (f q).id ≡ q.id)
      → P db
      → P (put_users db (update p f db.users))
  pub changes_balance :
      (db : Db) (p : BalanceRow → Bool) (f : BalanceRow → BalanceRow) (r : BalanceRow)
      → select p db.balances ≡ some r
      → balance_check (f r) ≡ true
      → P db
      → P (put_balances db (update p f db.balances))
  pub adds_balance :
      (db : Db) (r : BalanceRow)
      → balance_check r ≡ true
      → P db
      → P (put_balances db (db.balances ++ (r ∷ [])))
  pub changes_order :
      (db : Db) (p : OrderRow → Bool) (f : OrderRow → OrderRow)
      → ((q : OrderRow) → (f q).user_id ≡ q.user_id)
      → P db
      → P (put_orders db (update p f db.orders))
  pub adds_order :
      (db : Db) (r : OrderRow)
      → order_known r db ≡ true
      → P db
      → P (put_orders db (db.orders ++ (r ∷ [])))
  pub stores_trades : (db : Db) (rows : List TradeRow) → P db → P (put_trades db rows)
  pub stored : IsStored P

module _ (P : Db → Type 0) where
  -- If the call succeeds the database has the property.
  abbrev pub Ends : {A : Type 0} → Tx A → Session → Type 0
  Ends m s = Ensures (λ _ db. P db) (m s)

  -- Two calls, one after the other
  pub Ends-bind :
      {A B : Type 0} (m : Tx A) (f : A → Tx B) (s : Session)
      → Ends m s
      → ((x : A) (s' : Session) → P s'.db → Ends (f x) s')
      → Ends (m >>= f) s
  Ends-bind m f s h k = Ensures-bind (λ _ db. P db) (λ _ db. P db) m f s h k

  pub unless-Ends :
      (c : Bool) (m : Tx (Unit {0})) (s : Session) → P s.db → Ends m s → Ends (unless c m) s
  unless-Ends c m s v h = Ensures-unless c m s (λ _ db. P db) (λ _. v) (λ _. h)
