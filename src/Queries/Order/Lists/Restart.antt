-- ===== src/Queries/Order/Lists/Restart.antt =====
-- `GetActiveOrdersByUserID` beside `GetAllActiveOrders`, of db/queries/order.go.
use cex_go.Prelude.{List, ◌∷◌, ◌++◌, ◌≡◌, true, false, All, Mem, length, All-mono, eq_iff, arith}
use cex_go.Models.{Order, open_status, partially_filled}
use cex_go.Database.{Db, Session, Tick, ok}
use cex_go.Database.Ensures.{Ensures, Ensures-mono}
use cex_go.Database.Served.{session}
use cex_go.Database.Listing.{select_all, order_by, query_rows}
use cex_go.Database.Listing.Sorting.{
  All-prefix, All-select_all, Mem-select_all, All-order_by, Mem-order_by,
}
use cex_go.Database.Listing.Fetching.{IsFetched, query_rows-Ensures, query_rows-served}
use cex_go.Queries.Order.Lists.{
  scanned, oldest_first, newest_first, is_open, join_markets, is_active_of, get_all_active_orders,
  get_active_orders_by_user_id,
}

-- The orders that `GetAllActiveOrders` returns are open.
get_all_active_orders-open :
    (s : Session) → Ensures (λ os _. All (λ o. o.status ≡ open_status) os) (get_all_active_orders s)
unfolding get_all_active_orders
get_all_active_orders-open s =
    let rows = select_all is_open (scanned s.db) in
    Ensures-mono (IsFetched (order_by oldest_first rows) s.db)
      (λ os _. All (λ o. o.status ≡ open_status) os)
      (query_rows (λ db. order_by oldest_first (select_all is_open (scanned db))) s)
      (query_rows-Ensures (λ db. order_by oldest_first (select_all is_open (scanned db))) s)
      λ os db (e, h).
        All-prefix (λ o. o.status ≡ open_status) os (order_by oldest_first rows) h
          (All-order_by oldest_first (λ o. o.status ≡ open_status) rows
            (All-mono (λ o. is_open o ≡ true) (λ o. o.status ≡ open_status) rows
              (λ o k. (eq_iff o.status open_status).0 k) (All-select_all is_open (scanned s.db))))

-- An order that is filled in part, in a market that is there, is among those that
-- `GetActiveOrdersByUserID` returns for its user if the server answers for the query and every row,
-- while all orders that `GetAllActiveOrders` returns for the book at a restart have the status `open`.
pub partially_filled-unloaded :
    (o : Order) (db : Db) (t : Tick) (ts rest : List Tick) (restart : Session)
    → Mem o (join_markets db.markets (scanned db))
    → o.status ≡ partially_filled
    → All (λ t. t.fails ≡ false) (t ∷ ts)
    → length ts
      ≡ length (
          order_by newest_first
            (select_all (is_active_of o.user_id) (join_markets db.markets (scanned db))))
    → ((os : List Order) × (get_active_orders_by_user_id o.user_id (session db (t ∷ ts ++ rest))
          ≡ (ok os, session db rest))
        × Mem o os)
      × Ensures (λ os _. All (λ o. o.status ≡ open_status) os) (get_all_active_orders restart)
unfolding get_active_orders_by_user_id
partially_filled-unloaded o db t ts rest restart m e h n =
    let p = is_active_of o.user_id in
    let rows = join_markets db.markets (scanned db) in
    let active : p o ≡ true = rw e (ground arith) in
    (
      (
        order_by newest_first (select_all p rows),
        query_rows-served
            (λ db. order_by newest_first (select_all p (join_markets db.markets (scanned db)))) db t
            ts rest h n,
        Mem-order_by newest_first o (select_all p rows) (Mem-select_all p o rows m active),
      ),
      get_all_active_orders-open restart,
    )
