-- ===== src/Queries/Order/Alone.antt =====
-- The writes of db/queries/order.go outside of a transaction.
pub mod Cancelling
pub mod Creating
use cex_go.Prelude.{ℕ, String, Bool, not, ◌&&◌, ◌||◌, ◌==◌, str_eq, if◌then◌else◌}
use cex_go.Prelude.Int.{ℤ, pos}
use cex_go.Models.{Order, zero_order, cancelled, open_status, pending}
use cex_go.Database.{
  OrderRow, TradeRow, Db, Session, Tx, ok, no_rows, ◌>>=◌, ◌>>◌, pure, fail_if, round_trip,
  order_check,
}
use cex_go.Database.Statement.{exec_update, exec_insert, exec_affected}
use cex_go.Database.Listing.{select_all}
use cex_go.Queries.Order.{
  of_order, put_orders, new_order_row, same_order_key, order_known, set_status,
}

-- Only the id comes from the new row: the time of creation stays the zero time.
unfoldable pub create_order : ℕ → ℕ → String → String → ℤ → ℤ → Tx Order
unfolding exec_insert
create_order user market_id order_type side price quantity = do
  row ←
      exec_insert (λ db. db.orders) put_orders
        (new_order_row user market_id order_type side price quantity) order_check same_order_key
        order_known
  pure (record zero_order {
    id = row.id;
    user_id = user;
    market_id = market_id;
    order_type = order_type;
    side = side;
    price = price;
    quantity = quantity;
    status = pending;
    filled_quantity = pos 0;
  })

unfoldable pub update_order_status : ℕ → String → Tx (Unit {0})
unfolding exec_update
update_order_status id status =
    exec_update (λ db. db.orders) put_orders (of_order id) (set_status status) order_check

unfoldable pub update_order_status_and_quantity : ℕ → String → ℤ → Tx (Unit {0})
unfolding exec_update
update_order_status_and_quantity id status filled_quantity =
    exec_update (λ db. db.orders) put_orders (of_order id)
      (λ r. record r { status = status; filled_quantity = filled_quantity }) order_check

abbrev pub trade_of : ℕ → TradeRow → Bool
trade_of id t = t.buy_order_id == id || t.sell_order_id == id

-- DELETE, with the trades of the order by ON DELETE CASCADE
abbrev pub without_order : ℕ → Db → Db
without_order id db = record db {
  orders = select_all (λ r. not (of_order id r)) db.orders;
  trades = select_all (λ t. not (trade_of id t)) db.trades;
}

unfoldable pub delete_order : ℕ → Tx (Unit {0})
unfolding round_trip
delete_order id = do round_trip; λ s. (ok tt, record s { db = without_order id s.db })

-- `WHERE id = id AND user_id = user AND status = 'open'`
abbrev pub is_open_of : ℕ → ℕ → OrderRow → Bool
is_open_of id user r = r.id == id && (r.user_id == user && str_eq r.status open_status)

unfoldable pub cancel_order : ℕ → ℕ → Tx (Unit {0})
unfolding exec_affected
cancel_order id user = do
  found ←
      exec_affected (λ db. db.orders) put_orders (is_open_of id user) (set_status cancelled)
        order_check
  fail_if (not found) no_rows
