-- ===== src/Queries/Trades/Effects.antt =====
-- What `InsertTradeTx` does, if it succeeds: the trade that it returns has the price, the quantity and
-- the assets of the one that was given, both positive, and the users of its two orders.
use cex_go.Prelude.{◌≡◌, ap, true, some, Bool, arith, ◌∙◌}
use cex_go.Prelude.Int.{pos, ◌<ℤ◌}
use cex_go.Models.{Trade}
use cex_go.Database.{Db, OrderRow, TradeRow, Session, trade_check, pure}
use cex_go.Database.Table.{select, All-select}
use cex_go.Database.Statement.{exists, query_row, read_row, exec_insert}
use cex_go.Database.Ensures.{
  Ensures, Ensures-mono, Ensures-bind, exec_insert-Ensures, query_row-Ensures, read_row-Ensures,
  IsInserted,
}
use cex_go.Queries.Balance.{of_user}
use cex_go.Queries.Order.{put_orders, of_order}
use cex_go.Queries.Order.Effects.{OwnersExist}
use cex_go.Queries.Trades.{
  put_trades, new_trade_row, same_trade_key, trade_known, inserted_trade, insert_trade_tx,
  select_users, second_order,
}

-- The trade of a row in the database: its terms are those of `given`, and the users of its two orders
-- are there.
abbrev pub IsRecorded : Db → Trade → Trade → Type 0
IsRecorded db given t =
    (pos 0 <ℤ t.quantity)
    × (pos 0 <ℤ t.price)
    × (t.base_asset ≡ given.base_asset)
    × (exists (of_user t.buy_order.user_id) db.users ≡ true)
    × (exists (of_user t.sell_order.user_id) db.users ≡ true)
    × (t.price ≡ given.price)
    × (t.quantity ≡ given.quantity)

-- Only the table of trades changes.
abbrev pub OnlyTrades : Db → Db → Type 0
OnlyTrades before after =
    (after.users ≡ before.users)
    × (after.balances ≡ before.balances)
    × (after.orders ≡ before.orders)

checked-IsRecorded :
    (db : Db) (given : Trade) (r : TradeRow) (bo so : OrderRow)
    → trade_check r ≡ true
    → r.base_asset ≡ given.base_asset
    → r.price ≡ given.price
    → r.quantity ≡ given.quantity
    → exists (of_user bo.user_id) db.users ≡ true
    → exists (of_user so.user_id) db.users ≡ true
    → IsRecorded db given (inserted_trade r bo so)
checked-IsRecorded db given r bo so c e p q hb hs = ground arith

select_users-Ensures :
    (given : Trade) (row : TradeRow) (s : Session)
    → OwnersExist s.db
    → trade_check row ≡ true
    → row.base_asset ≡ given.base_asset
    → row.price ≡ given.price
    → row.quantity ≡ given.quantity
    → Ensures (λ q db. IsRecorded s.db given q × (db ≡ s.db)) (select_users row s)
select_users-Ensures given row s owners c e p q =
    let Q : Trade → Db → Type 0 = λ q db. IsRecorded s.db given q × (db ≡ s.db) in
    Ensures-bind (λ bo db. (db ≡ s.db) × (select (of_order row.buy_order_id) s.db.orders ≡ some bo))
      Q (query_row (λ db. db.orders) put_orders (of_order row.buy_order_id)) (second_order row) s
      (query_row-Ensures (λ db. db.orders) put_orders (of_order row.buy_order_id) s)
      λ bo s₁ (d₁, b).
        Ensures-bind
          (λ so db. (db ≡ s₁.db) × (select (of_order row.sell_order_id) s₁.db.orders ≡ some so)) Q
          (read_row (λ db. db.orders) put_orders (of_order row.sell_order_id))
          (λ so. pure (inserted_trade row bo so)) s₁
          (read_row-Ensures (λ db. db.orders) put_orders (of_order row.sell_order_id) s₁)
          λ so s₂ (d₂, o). (
            checked-IsRecorded s.db given row bo so c e p q (owner (of_order row.buy_order_id) bo b)
                (owner (of_order row.sell_order_id) so (rw d₁ at o)),
            d₂ ∙ d₁,
          )
  where
    owner :
        (p : OrderRow → Bool) (r : OrderRow)
        → select p s.db.orders ≡ some r
        → exists (of_user r.user_id) s.db.users ≡ true
    owner p r =
        All-select (λ q. exists (of_user q.user_id) s.db.users ≡ true) p s.db.orders r owners

pub insert_trade_tx-Ensures :
    (t : Trade) (s : Session)
    → OwnersExist s.db
    → Ensures (λ q db. IsRecorded s.db t q × OnlyTrades s.db db) (insert_trade_tx t s)
unfolding insert_trade_tx
insert_trade_tx-Ensures t s owners =
    let Q : Trade → Db → Type 0 = λ q db. IsRecorded s.db t q × OnlyTrades s.db db in
    Ensures-bind
      (IsInserted (λ db. db.trades) put_trades (new_trade_row t) trade_check trade_known s.db) Q
      (exec_insert (λ db. db.trades) put_trades (new_trade_row t) trade_check same_trade_key
        trade_known)
      select_users s
      (exec_insert-Ensures (λ db. db.trades) put_trades (new_trade_row t) trade_check same_trade_key
        trade_known s)
      λ row s₁ (k, e, c, _, d).
        let users : s₁.db.users ≡ s.db.users = ap (λ x. x.users) d in
        let orders : s₁.db.orders ≡ s.db.orders = ap (λ x. x.orders) d in
        Ensures-mono (λ q db. IsRecorded s₁.db t q × (db ≡ s₁.db)) Q (select_users row s₁)
          (select_users-Ensures t row s₁ (rw (users, orders) owners) c (ap (λ x. x.base_asset) e)
            (ap (λ x. x.price) e) (ap (λ x. x.quantity) e))
          λ q db (r, d'). (
            rw users at r,
            (
              ap (λ x. x.users) d' ∙ users,
              ap (λ x. x.balances) d' ∙ ap (λ x. x.balances) d,
              ap (λ x. x.orders) d' ∙ orders,
            ),
          )
