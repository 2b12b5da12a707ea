-- ===== src/Examples/Books.antt =====
-- Runs on a book that a start of the program loaded.
use mathlib.Core.Path.{◌≡◌, refl}
use cex_go.Prelude.{ℕ, String, ◌==◌, ◌++◌, true, some, none, List, [], ◌∷◌, All, if◌then◌else◌}
use cex_go.Prelude.Int.{pos, ◌+ℤ◌, ◌-ℤ◌, ◌*ℤ◌}
use cex_go.Models.{Order, sell, buy, whole, partially_filled, filled, limit, zero_order}
use cex_go.Database.{Db, OrderRow, Tick, Session, round_trip, order_check}
use cex_go.Database.Served.{session}
use cex_go.Queries.Order.{scan_order, update_order_status_tx}
use cex_go.Queries.Balance.{unlock_balance_tx, guarded_balance}
use cex_go.Database.Table.{select, update}
use cex_go.Database.Statement.{guarded_update, query_row, exec_update}
use cex_go.Queries.Order.Lists.{scanned, get_all_active_orders}
use cex_go.Redis.{
  is_finished, update_order_in_redis, insert_order_to_redis, MarketDepth, build_score,
  best_ask_from_redis, best_bid_from_redis, first_order, read_order, details_of,
  get_order_book_from_redis_by_market_id,
}
use cex_go.Redis.Invariant.{HasPlace, IsBook}
use cex_go.Redis.Best.{
  IsBest, AskBefore, BidBefore, best_ask_from_redis-IsBest, best_bid_from_redis-IsBest,
}
use cex_go.Redis.Loading.{load_order_book_to_redis}
use cex_go.Redis.Loading.Open.{HoldsOpen, load_order_book_to_redis-HoldsOpen}
use cex_go.Redis.Sides.{IsSide}
use cex_go.Redis.Depth.{get_order_book_from_redis_by_market_id-IsSide}
use cex_go.Matching.{OrderResult, update_others_in_redis, apply_order_result_to_redis}
use cex_go.Matching.Synced.{Entered, apply_order_result_to_redis-Entered}
use cex_go.Redis.Writes.{Written}
use cex_go.Controllers.{done}
use cex_go.Controllers.Orders.{cancel_order, cancel_in_tx, release}
use cex_go.Controllers.Orders.Cancelled.{IsCancelled}
use cex_go.Controllers.Orders.Gone.{cancel_order-Written}
use cex_go.Examples.Data.{exchange, ask, tick, fixed}
use cex_go.Examples.Log.{float_gap, Log, log_server, log_server-IsRedis, view_of}

-- An ask at 105, an ask at 100, and two bids at 90, the second one later
abbrev dear_ask : OrderRow
dear_ask = record ask { id = 21; price = whole 105 }

abbrev first_bid : OrderRow
first_bid = record ask { id = 30; user_id = 1; side = buy; price = whole 90 }

abbrev second_bid : OrderRow
second_bid = record first_bid { id = 31; created_at = pos 1_700_000_005_000 }

abbrev pub trading : Db
trading = record exchange { orders = dear_ask ∷ ask ∷ first_bid ∷ second_bid ∷ [] }

abbrev place : ℕ → ℕ × String
place id =
    if id == 60
    then (1, buy)
    else if id == 30
    then (1, buy)
    else if id == 31
    then (1, buy)
    else (1, sell)

abbrev pub answers : List Tick
answers = tick 90 ∷ tick 91 ∷ tick 92 ∷ tick 93 ∷ []

abbrev loaded : Log
loaded = (load_order_book_to_redis log_server [] (session trading (tick 89 ∷ answers ++ []))).1

trading-HasPlace : All (HasPlace place) (scanned trading)
trading-HasPlace = ((refl, refl), ((refl, refl), ((refl, refl), ((refl, refl), tt))))

loaded_done :
    (load_order_book_to_redis log_server [] (session trading (tick 89 ∷ answers ++ []))).0 ≡ true
unfolding load_order_book_to_redis get_all_active_orders
loaded_done = refl

load_order_book_to_redis-HoldsOpen_example :
    IsBook place (view_of loaded) × HoldsOpen trading (view_of []) (view_of loaded)
load_order_book_to_redis-HoldsOpen_example =
    load_order_book_to_redis-HoldsOpen log_server view_of log_server-IsRedis place [] trading
      (tick 89) answers [] ((λ m side id. refl), λ id d e. absurd (cc e)) trading-HasPlace
      (refl, (refl, (refl, (refl, (refl, tt))))) refl loaded_done

loaded-IsBook : IsBook place (view_of loaded)
loaded-IsBook =
    (load_order_book_to_redis-HoldsOpen log_server view_of log_server-IsRedis place [] trading
      (tick 89) answers [] ((λ m side id. refl), λ id d e. absurd (cc e)) trading-HasPlace
      (refl, (refl, (refl, (refl, (refl, tt))))) refl loaded_done).0

-- An order as it comes back from Redis
abbrev back : OrderRow → Order
back r = read_order r.id (some (details_of (scan_order r)))

best_ask : best_ask_from_redis log_server 1 loaded ≡ some (back ask)
unfolding load_order_book_to_redis get_all_active_orders best_ask_from_redis first_order read_order
    details_of build_score ◌+ℤ◌ ◌*ℤ◌ ◌-ℤ◌
best_ask = refl

best_ask_from_redis-IsBest_example : IsBest (AskBefore float_gap) 1 sell (view_of loaded) (back ask)
best_ask_from_redis-IsBest_example =
    best_ask_from_redis-IsBest log_server view_of log_server-IsRedis place 1 loaded (back ask)
      loaded-IsBook best_ask

-- The later one of the two bids
best_bid : best_bid_from_redis log_server 1 loaded ≡ some (back second_bid)
unfolding load_order_book_to_redis get_all_active_orders best_bid_from_redis first_order read_order
    details_of build_score ◌+ℤ◌ ◌*ℤ◌ ◌-ℤ◌
best_bid = refl

best_bid_from_redis-IsBest_example :
    IsBest (BidBefore float_gap) 1 buy (view_of loaded) (back second_bid)
best_bid_from_redis-IsBest_example =
    best_bid_from_redis-IsBest log_server view_of log_server-IsRedis place 1 loaded
      (back second_bid) loaded-IsBook best_bid

abbrev depth : MarketDepth
depth = record {
  market_id = 1;
  buys = back second_bid ∷ back first_bid ∷ [];
  sells = back ask ∷ back dear_ask ∷ [];
}

whole_book : get_order_book_from_redis_by_market_id log_server 1 loaded loaded ≡ some depth
unfolding load_order_book_to_redis get_all_active_orders get_order_book_from_redis_by_market_id
    read_order details_of build_score ◌+ℤ◌ ◌*ℤ◌ ◌-ℤ◌
whole_book = refl

get_order_book_from_redis_by_market_id-IsSide_example :
    (depth.market_id ≡ 1)
    × IsSide log_server view_of (BidBefore float_gap) 1 buy loaded depth.buys
    × IsSide log_server view_of (AskBefore float_gap) 1 sell loaded depth.sells
get_order_book_from_redis_by_market_id-IsSide_example =
    get_order_book_from_redis_by_market_id-IsSide log_server view_of log_server-IsRedis place 1
      loaded loaded depth loaded-IsBook loaded-IsBook whole_book

-- A bid at 100 that took the cheap ask and half a BTC of the other's, and rests with half a BTC
abbrev taker : Order
taker = record zero_order {
  id = 60;
  user_id = 1;
  market_id = 1;
  order_type = limit;
  side = buy;
  price = whole 105;
  quantity = whole 2;
  status = partially_filled;
  filled_quantity = whole 1;
}

abbrev taken : OrderResult
taken = record {
  incoming_order = taker;
  updated_orders = taker ∷ record (back ask) { filled_quantity = whole 1; status = filled } ∷ [];
  trades = [];
  base_asset = "BTC";
  quote_asset = "USD";
}

applied : (apply_order_result_to_redis log_server taken loaded).0 ≡ true
unfolding apply_order_result_to_redis update_others_in_redis update_order_in_redis
    insert_order_to_redis is_finished read_order details_of
applied = refl

apply_order_result_to_redis-Entered_example :
    Entered place taken
      (view_of loaded)
      (view_of (apply_order_result_to_redis log_server taken loaded).1)
unfolding read_order details_of
apply_order_result_to_redis-Entered_example =
    apply_order_result_to_redis-Entered log_server view_of log_server-IsRedis place taken loaded
      loaded-IsBook (refl, refl) ((refl, refl), ((refl, refl), tt)) applied

abbrev served : Session
served = session trading (tick 89 ∷ answers)

cancelled_done : (cancel_order log_server ⦃f = fixed⦄ 20 loaded served).0 ≡ done tt
unfolding cancel_order cancel_in_tx release update_order_status_tx order_check unlock_balance_tx
    guarded_balance guarded_update query_row exec_update round_trip update_order_in_redis
    is_finished select update ◌-ℤ◌ ◌+ℤ◌
cancelled_done = refl

cancel_order-Written_example :
    let (_, s, log) = cancel_order log_server ⦃f = fixed⦄ 20 loaded served in
    Written place 20 none (view_of loaded) (view_of log) × IsCancelled 20 s.db
cancel_order-Written_example =
    cancel_order-Written log_server ⦃f = fixed⦄ view_of log_server-IsRedis place 20 loaded served
      loaded-IsBook trading-HasPlace cancelled_done
