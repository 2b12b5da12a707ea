-- ===== src/Controllers/Reads.antt =====
-- internal/controllers/order.go: `GetOrderBook`, `GetUserTrades` and `GetActiveUserOrders`.
use cex_go.Prelude.{ℕ, Option, none, some, List}
use cex_go.Models.{Order, UserTrade}
use cex_go.Redis.{Server, MarketDepth, get_order_book_from_redis_by_market_id}
use cex_go.Queries.Trades.Listed.{get_trades_by_user_id}
use cex_go.Queries.Order.Lists.{get_active_orders_by_user_id}
use cex_go.Controllers.Handlers.{Handler, answer, refuse, Outcome, done, refused}

abbrev pub depth_answer : Option MarketDepth → Outcome MarketDepth
depth_answer none = refused 500
depth_answer (some depth) = done depth

module _ (server : Server) where
  open server use {Store}

  -- `at_buys` and `at_sells` are what the two concurrent reads find.
  unfoldable pub get_order_book : ℕ → Store → Store → Outcome MarketDepth
  get_order_book market_id at_buys at_sells =
      depth_answer (get_order_book_from_redis_by_market_id server market_id at_buys at_sells)

unfoldable pub get_user_trades : Option ℕ → Handler (List UserTrade)
get_user_trades none = refuse 401
get_user_trades (some user) = answer 500 (get_trades_by_user_id user)

unfoldable pub get_active_user_orders : Option ℕ → Handler (List Order)
get_active_user_orders none = refuse 401
get_active_user_orders (some user) = answer 500 (get_active_orders_by_user_id user)
