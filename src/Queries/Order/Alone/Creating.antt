-- ===== src/Queries/Order/Alone/Creating.antt =====
-- `CreateOrder` beside `CreateOrderTx`.
use cex_go.Prelude.{ℕ, String, ◌≡◌, refl, sym}
use cex_go.Prelude.Int.{ℤ, pos}
use cex_go.Models.{Order, zero_time, zero_order, pending}
use cex_go.Database.{Db, OrderRow, Session, Result, Tick, ok, err, ◌>>=◌, pure, order_check}
use cex_go.Database.Statement.{exec_insert}
use cex_go.Database.Ensures.{Ensures, IsInserted, exec_insert-Ensures}
use cex_go.Queries.Order.{
  create_order_tx, put_orders, new_order_row, same_order_key, order_known, scan_order, stamp,
}
use cex_go.Queries.Order.Alone.{create_order}

-- An order without its time of creation
abbrev pub undated : Order → Order
undated o = record o { created_at = zero_time }

abbrev pub undated_result : Result Order × Session → Result Order × Session
undated_result (ok o, s) = (ok (undated o), s)
undated_result (err e, s) = (err e, s)

module _ (clock : ℤ) (user market_id : ℕ) (order_type side : String) (price quantity : ℤ) where
  abbrev row_of : Tick → OrderRow
  row_of = new_order_row user market_id order_type side price quantity

  -- The order that `create_order` makes of the id of the new row
  abbrev made : ℕ → Order
  made id = record zero_order {
    id = id;
    user_id = user;
    market_id = market_id;
    order_type = order_type;
    side = side;
    price = price;
    quantity = quantity;
    status = pending;
    filled_quantity = pos 0;
  }

  inserted-undated :
      (before : Db) (m : Result OrderRow × Session)
      → Ensures (IsInserted (λ db. db.orders) put_orders row_of order_check order_known before) m
      → undated_result (((λ _. m) >>= λ row. pure (stamp clock (scan_order row))) m.1)
        ≡ ((λ _. m) >>= λ row. pure (made row.id)) m.1
  inserted-undated before (err e, s) h = refl
  inserted-undated before (ok row, s) (t, e, _, _, _) = rw e refl

  -- `CreateOrder` and `CreateOrderTx` do the same to the database and return the same error or the
  -- same order, but for the time of creation, which `CreateOrder` leaves zero.
  pub create_order-create_order_tx :
      (s : Session)
      → create_order user market_id order_type side price quantity s
        ≡ undated_result (create_order_tx clock user market_id order_type side price quantity s)
  unfolding create_order create_order_tx
  create_order-create_order_tx s = sym (
      inserted-undated s.db
        (exec_insert (λ db. db.orders) put_orders row_of order_check same_order_key order_known s)
        (exec_insert-Ensures (λ db. db.orders) put_orders row_of order_check same_order_key
          order_known s))
