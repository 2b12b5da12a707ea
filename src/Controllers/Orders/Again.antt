-- ===== src/Controllers/Orders/Again.antt =====
-- `CancelOrder` of internal/controllers/order.go on an order of any status.
use cex_go.Prelude.{ap, ◌∙◌, ℕ, String, some, true, false, ◌≡◌, refl, List, ◌∷◌, str_eq}
use cex_go.Prelude.Int.{ℤ, pos, ltb_ℤ, leb_ℤ, ◌-ℤ◌}
use cex_go.Float.{Float64}
use cex_go.Models.{Order, Market, sell, cancelled}
use cex_go.Database.{
  Db, OrderRow, BalanceRow, Tick, ok, round_trip, ◌>>◌, pure, balance_check, order_check,
}
use cex_go.Database.Table.{select, update}
use cex_go.Database.Served.{bind-served, session, guarded_update-served}
use cex_go.Redis.{Server, update_order_in_redis}
use cex_go.Queries.Balance.{of_asset, put_balances, unlock_balance_tx, unlock_row, guarded_balance}
use cex_go.Queries.Order.{
  of_order, put_orders, set_status, scan_order, join_order, update_order_status_tx, store_status,
}
use cex_go.Controllers.Handlers.{done}
use cex_go.Controllers.Orders.{
  cancel_order, cancel_in_tx, release, cancelled_in_db, cancelled_in_redis,
}

update_order_status_tx-served :
    (id : ℕ) (status : String) (db : Db) (t : Tick) (ts : List Tick) (r : OrderRow) (m : Market)
    → t.fails ≡ false
    → join_order id db ≡ some (r, m)
    → order_check (set_status status r) ≡ true
    → update_order_status_tx id status (session db (t ∷ ts)) ≡ (
      ok (record (scan_order (set_status status r)) {
        base_asset = m.base_asset;
        quote_asset = m.quote_asset;
      }),
      session (put_orders db (update (of_order id) (set_status status) db.orders)) ts,
    )
unfolding update_order_status_tx round_trip
update_order_status_tx-served id status db t ts r m h e c =
    rw h (ap (λ o. store_status id status o (session db ts)) e ∙ rw c refl)

unlock_balance_tx-served :
    (user : ℕ) (asset : String) (amount : ℤ) (db : Db) (t u : Tick) (ts : List Tick)
    (b : BalanceRow)
    → leb_ℤ amount (pos 0) ≡ false
    → t.fails ≡ false
    → u.fails ≡ false
    → select (of_asset user asset) db.balances ≡ some b
    → ltb_ℤ b.locked amount ≡ false
    → balance_check (unlock_row amount b) ≡ true
    → unlock_balance_tx user asset amount (session db (t ∷ u ∷ ts)) ≡ (
      ok tt,
      session (put_balances db (update (of_asset user asset) (unlock_row amount) db.balances)) ts,
    )
unfolding unlock_balance_tx guarded_balance
unlock_balance_tx-served user asset amount db t u ts b p h k e n c =
    rw
      (
        p,
        guarded_update-served (λ db. db.balances) put_balances db t u ts (of_asset user asset)
            (λ r. ltb_ℤ r.locked amount) (unlock_row amount) balance_check b h k e n c,
      )
      refl

-- The database behind the cancelling of an order for sale: its status is changed, and what is left of
-- it is unlocked.
abbrev pub db_cancelled : ℕ → OrderRow → Market → Db → Db
db_cancelled id r m db =
    let marked = put_orders db (update (of_order id) (set_status cancelled) db.orders) in
    put_balances marked (
      update (of_asset r.user_id m.base_asset) (unlock_row (r.quantity -ℤ r.filled_quantity))
        marked.balances)

abbrev pub cancelled_order : OrderRow → Market → Order
cancelled_order r m = record (scan_order (set_status cancelled r)) {
  base_asset = m.base_asset;
  quote_asset = m.quote_asset;
}

cancel_in_tx-served :
    (server : Server) ⦃f : Float64⦄ (id : ℕ) (db : Db) (t u v : Tick) (ts : List Tick)
    (r : OrderRow) (m : Market) (b : BalanceRow)
    → t.fails ≡ false
    → u.fails ≡ false
    → v.fails ≡ false
    → join_order id db ≡ some (r, m)
    → order_check (set_status cancelled r) ≡ true
    → str_eq r.side sell ≡ true
    → leb_ℤ (r.quantity -ℤ r.filled_quantity) (pos 0) ≡ false
    → select (of_asset r.user_id m.base_asset) db.balances ≡ some b
    → ltb_ℤ b.locked (r.quantity -ℤ r.filled_quantity) ≡ false
    → balance_check (unlock_row (r.quantity -ℤ r.filled_quantity) b) ≡ true
    → cancel_in_tx server id (session db (t ∷ u ∷ v ∷ ts))
      ≡ (ok (cancelled_order r m), session (db_cancelled id r m db) ts)
unfolding cancel_in_tx release
cancel_in_tx-served server id db t u v ts r m b h k l e c side p x n d =
    let marked = put_orders db (update (of_order id) (set_status cancelled) db.orders) in
    let left = r.quantity -ℤ r.filled_quantity in
    bind-served (update_order_status_tx id cancelled) (λ o. release server o >> pure o)
      (session db (t ∷ u ∷ v ∷ ts)) (cancelled_order r m) (session marked (u ∷ v ∷ ts))
      (update_order_status_tx-served id cancelled db t (u ∷ v ∷ ts) r m h e c)
    ∙ rw side (
        bind-served (unlock_balance_tx r.user_id m.base_asset left)
          (λ _. pure (cancelled_order r m)) (session marked (u ∷ v ∷ ts)) tt
          (session (db_cancelled id r m db) ts)
          (unlock_balance_tx-served r.user_id m.base_asset left marked u v ts b p k l x n d))

-- An order for sale that has something left, whatever its status (it may be cancelled already), is
-- cancelled for anyone who asks: if the seller has that much of the asset locked, the order and the
-- balance stay within their CHECKs, and the database server and Redis answer, `CancelOrder` answers
-- with success and unlocks what is left of the order once more.
pub cancel_order-any_status :
    (server : Server) ⦃f : Float64⦄ (id : ℕ) (db : Db) (begin t u v commit : Tick) (ts : List Tick)
    (r : OrderRow) (m : Market) (b : BalanceRow) (st after : Server.Store server)
    → begin.fails ≡ false
    → t.fails ≡ false
    → u.fails ≡ false
    → v.fails ≡ false
    → commit.fails ≡ false
    → join_order id db ≡ some (r, m)
    → order_check (set_status cancelled r) ≡ true
    → str_eq r.side sell ≡ true
    → leb_ℤ (r.quantity -ℤ r.filled_quantity) (pos 0) ≡ false
    → select (of_asset r.user_id m.base_asset) db.balances ≡ some b
    → ltb_ℤ b.locked (r.quantity -ℤ r.filled_quantity) ≡ false
    → balance_check (unlock_row (r.quantity -ℤ r.filled_quantity) b) ≡ true
    → update_order_in_redis server (cancelled_order r m) st ≡ (true, after)
    → cancel_order server id st (session db (begin ∷ t ∷ u ∷ v ∷ commit ∷ ts))
      ≡ (done tt, session (db_cancelled id r m db) ts, after)
unfolding cancel_order round_trip
cancel_order-any_status server id db begin t u v commit ts r m b st after g h k l w e c side p x n d
      z =
    rw g (
      ap (cancelled_in_db server (session db (begin ∷ t ∷ u ∷ v ∷ commit ∷ ts)) st)
        (cancel_in_tx-served server id db t u v (commit ∷ ts) r m b h k l e c side p x n d)
      ∙ ap
          (cancelled_in_redis server (session db (begin ∷ t ∷ u ∷ v ∷ commit ∷ ts))
            (cancelled_order r m) (session (db_cancelled id r m db) (commit ∷ ts)))
          z
      ∙ rw w refl)
