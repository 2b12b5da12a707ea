-- ===== src/Queries/Trades/Listed.antt =====
-- db/queries/trades.go: `InsertTrade` and `GetTradesByUserID`.
use cex_go.Prelude.{ℕ, Bool, ◌==◌, ◌||◌, none, some, List, [], ◌∷◌, map, if◌then◌else◌}
use cex_go.Prelude.Int.{leb_ℤ}
use cex_go.Models.{Trade, UserTrade, buy, sell}
use cex_go.Database.{Db, OrderRow, TradeRow, Tx, ◌>>=◌, trade_check}
use cex_go.Database.Table.{select}
use cex_go.Database.Statement.{exec_insert, query_row, read_row}
use cex_go.Database.Listing.{select_all, order_by, limit_to, query_checked}
use cex_go.Queries.Order.{of_order}
use cex_go.Queries.Trades.{put_trades, new_trade_row, same_trade_key, trade_known, select_users}

-- The same statements as `InsertTradeTx`, each in a transaction of its own
unfoldable pub insert_trade : Trade → Tx Trade
unfolding exec_insert query_row read_row
insert_trade trade = do
  row ←
      exec_insert (λ db. db.trades) put_trades (new_trade_row trade) trade_check same_trade_key
        trade_known
  select_users row

-- A trade with the rows of its buy order and its sell order
pub record Joined : Type 0 where
  pub trade : TradeRow
  pub bo : OrderRow
  pub so : OrderRow

-- JOIN orders bo ON bo.id = t.buy_order_id JOIN orders so ON so.id = t.sell_order_id
abbrev pub join_orders : List OrderRow → List TradeRow → List Joined
join_orders os [] = []
join_orders os (t ∷ ts) =
    let rest = join_orders os ts in
    elim (select (of_order t.buy_order_id) os) [
      | none ↦ rest
      | some bo ↦ elim (select (of_order t.sell_order_id) os) [
        | none ↦ rest
        | some so ↦ record { trade = t; bo = bo; so = so } ∷ rest
      ]
    ]

-- `bo.user_id = user OR so.user_id = user`
abbrev pub is_party : ℕ → Joined → Bool
is_party user j = j.bo.user_id == user || j.so.user_id == user

-- ORDER BY t.created_at DESC
abbrev pub latest_first : Joined → Joined → Bool
latest_first j k = leb_ℤ k.trade.created_at j.trade.created_at

abbrev pub user_trade : ℕ → Joined → UserTrade
user_trade user j = record {
  id = j.trade.id;
  market_id = j.bo.market_id;
  side = if j.bo.user_id == user then buy else sell;
  price = j.trade.price;
  quantity = j.trade.quantity;
  base_asset = j.trade.base_asset;
  quote_asset = j.trade.quote_asset;
  created_at = j.trade.created_at;
  buy_order_id = j.trade.buy_order_id;
  sell_order_id = j.trade.sell_order_id;
}

abbrev pub trades_of : ℕ → Db → List Joined
trades_of user db =
    limit_to 100
      (order_by latest_first (select_all (is_party user) (join_orders db.orders db.trades)))

unfoldable pub get_trades_by_user_id : ℕ → Tx (List UserTrade)
unfolding query_checked
get_trades_by_user_id user = query_checked λ db. map (user_trade user) (trades_of user db)
