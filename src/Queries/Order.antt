-- ===== src/Queries/Order.antt =====
-- db/queries/order.go, the queries that run in a caller's transaction.
pub mod Effects
pub mod Owners
pub mod Lists
pub mod Alone
use cex_go.Prelude.{ℕ, String, Bool, ◌&&◌, ◌||◌, ◌==◌, none, some, Option, List, if◌then◌else◌}
use cex_go.Prelude.Int.{ℤ, pos, eqb_ℤ}
use cex_go.Models.{Order, Market, zero_order, zero_time, pending}
use cex_go.Database.{
  Db, OrderRow, Tick, Tx, ok, err, no_rows, check_violation, ◌>>=◌, ◌>>◌, pure, round_trip,
  order_check,
}
use cex_go.Database.Table.{select, update}
use cex_go.Database.Statement.{exec_update, exec_insert, exists}
use cex_go.Queries.Balance.{of_user}

-- `WHERE id = id`
abbrev pub of_order : ℕ → OrderRow → Bool
of_order id r = r.id == id

abbrev pub of_market : ℕ → Market → Bool
of_market id m = m.id == id

abbrev pub put_orders : Db → List OrderRow → Db
put_orders db rows = record db { orders = rows }

abbrev pub put_markets : Db → List Market → Db
put_markets db rows = record db { markets = rows }

-- The columns of a row, scanned into an order
abbrev pub scan_order : OrderRow → Order
scan_order r = record zero_order {
  id = r.id;
  user_id = r.user_id;
  market_id = r.market_id;
  order_type = r.order_type;
  side = r.side;
  price = r.price;
  quantity = r.quantity;
  status = r.status;
  created_at = r.created_at;
  filled_quantity = r.filled_quantity;
}

abbrev pub new_order_row : ℕ → ℕ → String → String → ℤ → ℤ → Tick → OrderRow
new_order_row user market_id order_type side price quantity t = record {
  id = t.uuid;
  user_id = user;
  market_id = market_id;
  quantity = quantity;
  price = price;
  side = side;
  status = pending;
  created_at = t.now;
  order_type = order_type;
  filled_quantity = pos 0;
}

-- PRIMARY KEY (id), UNIQUE (user_id, market_id, created_at)
abbrev pub same_order_key : OrderRow → OrderRow → Bool
same_order_key r q =
    q.id == r.id
    || (q.user_id == r.user_id && q.market_id == r.market_id && eqb_ℤ q.created_at r.created_at)

-- The references of an order to its user and its market
abbrev pub order_known : OrderRow → Db → Bool
order_known r db = exists (of_user r.user_id) db.users && exists (of_market r.market_id) db.markets

-- `if order.CreatedAt.IsZero() { order.CreatedAt = time.Now() }`
abbrev pub stamp : ℤ → Order → Order
stamp clock o = record o {
  created_at = if eqb_ℤ o.created_at zero_time then clock else o.created_at;
}

-- `clock` is `time.Now()`.
unfoldable pub create_order_tx : ℤ → ℕ → ℕ → String → String → ℤ → ℤ → Tx Order
unfolding exec_insert
create_order_tx clock user market_id order_type side price quantity = do
  row ←
      exec_insert (λ db. db.orders) put_orders
        (new_order_row user market_id order_type side price quantity) order_check same_order_key
        order_known
  pure (stamp clock (scan_order row))

unfoldable pub update_order_status_and_quantity_tx : ℕ → String → ℤ → Tx (Unit {0})
unfolding exec_update
update_order_status_and_quantity_tx id status filled_quantity =
    exec_update (λ db. db.orders) put_orders (of_order id)
      (λ r. record r { status = status; filled_quantity = filled_quantity }) order_check

-- The join of an order with its market, written back and returned
abbrev pub joined : Option OrderRow → Option Market → Option (OrderRow × Market)
joined none m = none
joined (some r) none = none
joined (some r) (some m) = some (r, m)

abbrev pub join_order : ℕ → Db → Option (OrderRow × Market)
join_order id db = elim (select (of_order id) db.orders) [
  | none ↦ none
  | some r ↦ joined (some r) (select (of_market r.market_id) db.markets)
]

abbrev pub set_status : String → OrderRow → OrderRow
set_status status r = record r { status = status }

abbrev pub store_status : ℕ → String → Option (OrderRow × Market) → Tx Order
store_status id status none s = (err no_rows, s)
store_status id status (some (r, m)) s =
    if order_check (set_status status r)
    then (
      ok (record (scan_order (set_status status r)) {
        base_asset = m.base_asset;
        quote_asset = m.quote_asset;
      }),
      record s { db = put_orders s.db (update (of_order id) (set_status status) s.db.orders) },
    )
    else (err check_violation, s)

-- UPDATE orders SET status FROM markets WHERE orders.id = id AND orders.market_id = markets.id
unfoldable pub update_order_status_tx : ℕ → String → Tx Order
unfolding round_trip
update_order_status_tx id status = do round_trip; λ s. store_status id status (join_order id s.db) s
