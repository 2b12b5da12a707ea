-- ===== src/Matching/Engine.antt =====
-- `MatchLimitOrders` and `MatchMarketOrders`.
use cex_go.Prelude.{String, Bool, Option, none, some, List, [], ◌^◌, str_eq, if◌then◌else◌}
use cex_go.Prelude.Int.{ℤ, pos, ltb_ℤ}
use cex_go.Float.{Float64, equal}
use cex_go.Models.{Order, buy, sell, open_status, filled, partially_filled, cancelled, whole}
use cex_go.Redis.{Server, best_ask_from_redis, best_bid_from_redis}
use cex_go.Matching.Fill.{fill_against_level, fill_against_level_for_market_buy}
use cex_go.Matching.Loop.{OrderResult, Read, match_while}

-- `order.FilledQuantity < order.Quantity`
abbrev pub is_unfilled : Order → Bool
is_unfilled o = ltb_ℤ o.filled_quantity o.quantity

-- `order.Price > 0`
abbrev pub has_budget : Order → Bool
has_budget o = ltb_ℤ (pos 0) o.price

-- `order.FilledQuantity == order.Quantity`
abbrev pub is_filled : ⦃f : Float64⦄ → Order → Bool
is_filled o = equal o.filled_quantity o.quantity

abbrev pub empty_result : Order → String → String → OrderResult
empty_result order base quote = record {
  incoming_order = order;
  updated_orders = [];
  trades = [];
  base_asset = base;
  quote_asset = quote;
}

abbrev pub with_status : (Order → String) → OrderResult → OrderResult
with_status status result = record result {
  incoming_order = record result.incoming_order { status = status result.incoming_order };
}

unfoldable pub limit_status : ⦃f : Float64⦄ → Order → String
limit_status o =
    if is_filled o
    then filled
    else if ltb_ℤ (pos 0) o.filled_quantity
    then partially_filled
    else open_status

unfoldable pub market_status : ⦃f : Float64⦄ → Order → String
market_status o = if is_filled o then filled else cancelled

-- The level, unless its price does not cross the order's
abbrev pub crossing : (Order → Bool) → Option Order → Option Order
crossing stops none = none
crossing stops (some level) = if stops level then none else some level

-- `order.Quantity = 1e18`
abbrev pub market_buy_quantity : ℤ
market_buy_quantity = whole (10 ^ 18)

module _ (server : Server) where
  open server use {Store}

  -- The best level of the other side, if it crosses the order's price
  unfoldable pub limit_level : Order → Store → Option Order
  limit_level order st =
      if str_eq order.side buy
      then crossing (λ level. ltb_ℤ order.price level.price)
          (best_ask_from_redis server order.market_id st)
      else crossing (λ level. ltb_ℤ level.price order.price)
          (best_bid_from_redis server order.market_id st)

  unfoldable pub match_limit_orders :
      ⦃f : Float64⦄ → Order → String → String → List (Read Store) → OrderResult
  match_limit_orders order base quote reads = with_status limit_status (
      match_while is_unfilled limit_level (fill_against_level base quote) order
        (empty_result order base quote) reads)

  unfoldable pub match_market_sell :
      ⦃f : Float64⦄ → Order → String → String → List (Read Store) → OrderResult
  match_market_sell order base quote reads = with_status market_status (
      match_while is_unfilled (λ o. best_bid_from_redis server o.market_id)
        (fill_against_level base quote) order (empty_result order base quote) reads)

  -- The result starts from the order as it came, the loop from one with `market_buy_quantity`.
  unfoldable pub match_market_buy :
      ⦃f : Float64⦄ → Order → String → String → List (Read Store) → OrderResult
  match_market_buy order base quote reads = with_status market_status (
      match_while has_budget (λ o. best_ask_from_redis server o.market_id)
        (fill_against_level_for_market_buy base quote)
        (record order { quantity = market_buy_quantity }) (empty_result order base quote) reads)

  unfoldable pub match_market_orders :
      ⦃f : Float64⦄ → Order → String → String → List (Read Store) → OrderResult
  unfolding match_market_sell match_market_buy
  match_market_orders order base quote reads =
      if str_eq order.side sell
      then match_market_sell order base quote reads
      else match_market_buy order base quote reads
