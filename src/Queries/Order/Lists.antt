-- ===== src/Queries/Order/Lists.antt =====
-- The reads of db/queries/order.go.
pub mod Book
pub mod Restart
use cex_go.Prelude.{
  ℕ, String, Bool, ◌&&◌, ◌||◌, ◌==◌, str_eq, none, some, List, [], ◌∷◌, map, if◌then◌else◌,
}
use cex_go.Prelude.Int.{ltb_ℤ, leb_ℤ, eqb_ℤ}
use cex_go.Models.{Order, Market, buy, open_status, partially_filled}
use cex_go.Database.{Db, Tx, ◌>>=◌, pure}
use cex_go.Database.Table.{select}
use cex_go.Database.Statement.{query_row}
use cex_go.Database.Listing.{select_all, order_by, query_rows}
use cex_go.Queries.Order.{of_order, of_market, put_orders, scan_order}

unfoldable pub get_order_by_id : ℕ → Tx Order
unfolding query_row
get_order_by_id id = do
  r ← query_row (λ db. db.orders) put_orders (of_order id)
  pure (scan_order r)

-- The orders of the table, each scanned from its columns
abbrev pub scanned : Db → List Order
scanned db = map scan_order db.orders

abbrev pub oldest_first : Order → Order → Bool
oldest_first o p = leb_ℤ o.created_at p.created_at

abbrev pub newest_first : Order → Order → Bool
newest_first o p = leb_ℤ p.created_at o.created_at

abbrev pub is_open : Order → Bool
is_open o = str_eq o.status open_status

unfoldable pub get_orders_by_market_id : ℕ → Tx (List Order)
unfolding query_rows
get_orders_by_market_id market_id =
    query_rows λ db. select_all (λ o. o.market_id == market_id) (scanned db)

unfoldable pub get_all_active_orders : Tx (List Order)
unfolding query_rows
get_all_active_orders = query_rows λ db. order_by oldest_first (select_all is_open (scanned db))

-- INNER JOIN markets ON orders.market_id = markets.id
abbrev pub join_markets : List Market → List Order → List Order
join_markets ms [] = []
join_markets ms (o ∷ os) =
    let rest = join_markets ms os in
    elim (select (of_market o.market_id) ms) [
      | none ↦ rest
      | some m ↦ record o { base_asset = m.base_asset; quote_asset = m.quote_asset } ∷ rest
    ]

-- `user_id = user_id AND (status = 'open' OR status = 'partially_filled')`
abbrev pub is_active_of : ℕ → Order → Bool
is_active_of user_id o =
    o.user_id == user_id && (str_eq o.status open_status || str_eq o.status partially_filled)

unfoldable pub get_active_orders_by_user_id : ℕ → Tx (List Order)
unfolding query_rows
get_active_orders_by_user_id user_id = query_rows λ db.
    order_by newest_first (select_all (is_active_of user_id) (join_markets db.markets (scanned db)))

-- `market_id = market_id AND side = side AND status = 'open'`
abbrev pub is_open_on : ℕ → String → Order → Bool
is_open_on market_id side o = o.market_id == market_id && (str_eq o.side side && is_open o)

-- ORDER BY price, with the best price first, and created_at ASC
abbrev pub best_first : String → Order → Order → Bool
best_first side o p =
    let better = if str_eq side buy then ltb_ℤ p.price o.price else ltb_ℤ o.price p.price in
    better || (eqb_ℤ o.price p.price && oldest_first o p)

unfoldable pub get_open_orders_by_market : ℕ → String → Tx (List Order)
unfolding query_rows
get_open_orders_by_market market_id side =
    query_rows
      λ db. order_by (best_first side) (select_all (is_open_on market_id side) (scanned db))
