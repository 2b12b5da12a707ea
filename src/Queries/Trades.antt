-- ===== src/Queries/Trades.antt =====
-- db/queries/trades.go, the query that runs in a caller's transaction.
pub mod Effects
pub mod Listed
pub mod Recent
use cex_go.Prelude.{Bool, ◌&&◌, ◌==◌, List}
use cex_go.Models.{Trade, zero_order}
use cex_go.Database.{Db, OrderRow, TradeRow, Tick, Tx, ◌>>=◌, pure, trade_check}
use cex_go.Database.Statement.{exec_insert, query_row, exists, read_row}
use cex_go.Queries.Balance.{of_symbol}
use cex_go.Queries.Order.{of_order, put_orders}

abbrev pub put_trades : Db → List TradeRow → Db
put_trades db rows = record db { trades = rows }

abbrev pub new_trade_row : Trade → Tick → TradeRow
new_trade_row t k = record {
  id = k.uuid;
  buy_order_id = t.buy_order_id;
  sell_order_id = t.sell_order_id;
  quantity = t.quantity;
  price = t.price;
  created_at = k.now;
  quote_asset = t.quote_asset;
  base_asset = t.base_asset;
}

abbrev pub same_trade_key : TradeRow → TradeRow → Bool
same_trade_key r q = q.id == r.id

-- The references of a trade to its orders and its assets
abbrev pub trade_known : TradeRow → Db → Bool
trade_known r db =
    exists (of_order r.buy_order_id) db.orders
    && exists (of_order r.sell_order_id) db.orders
    && exists (of_symbol r.quote_asset) db.assets
    && exists (of_symbol r.base_asset) db.assets

-- The inserted trade, with the ids and the users of its two orders; the market's id is not filled in.
abbrev pub inserted_trade : TradeRow → OrderRow → OrderRow → Trade
inserted_trade r bo so = record {
  id = r.id;
  buy_order_id = r.buy_order_id;
  sell_order_id = r.sell_order_id;
  market_id = 0;
  price = r.price;
  quantity = r.quantity;
  trade_time = r.created_at;
  buy_order = record zero_order { id = bo.id; user_id = bo.user_id };
  sell_order = record zero_order { id = so.id; user_id = so.user_id };
  base_asset = r.base_asset;
  quote_asset = r.quote_asset;
}

-- The second SELECT, which joins the two orders in one statement: a row of the first order, then one
-- of the second in the same round trip.
abbrev pub second_order : TradeRow → OrderRow → Tx Trade
second_order row bo = do
  so ← read_row (λ db. db.orders) put_orders (of_order row.sell_order_id)
  pure (inserted_trade row bo so)

abbrev pub select_users : TradeRow → Tx Trade
select_users row = do
  bo ← query_row (λ db. db.orders) put_orders (of_order row.buy_order_id)
  second_order row bo

unfoldable pub insert_trade_tx : Trade → Tx Trade
unfolding exec_insert query_row read_row
insert_trade_tx trade = do
  row ←
      exec_insert (λ db. db.trades) put_trades (new_trade_row trade) trade_check same_trade_key
        trade_known
  select_users row
