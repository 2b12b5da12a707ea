-- ===== src/Redis/Book.antt =====
-- The functions of internal/db/redis.go over a Redis server. `json.Marshal` of the payloads, maps of
-- texts and numbers, does not fail, and the context of a call is the server's business.
use cex_go.Prelude.{
  ℕ, String, Bool, ◌||◌, Option, none, some, List, [], ◌∷◌, ◌^◌, str_eq, if◌then◌else◌,
}
use cex_go.Prelude.Int.{ℤ, pos, ◌+ℤ◌, ◌-ℤ◌, ◌*ℤ◌, leb_ℤ}
use cex_go.Models.{Order, zero_order, buy, sell, filled, cancelled, closed}
use cex_go.Redis.Commands.{
  Details, zadd, zrem, hset, del, order_remove, order_update, new_order, first_only, everything,
  Server,
}

-- The moment of the program's epoch, in milliseconds
abbrev pub base_time : ℤ
base_time = pos 1_700_000_000_000

-- price + (createdAt - baseTime) / 1e13, counted in 10^-13, before it is rounded to a float64. What the
-- rounding does to the order of the scores, `Redis.View.IsRedis` says.
unfoldable pub build_score : ℤ → ℤ → ℤ
build_score price created_at = price *ℤ pos (10 ^ 5) +ℤ (created_at -ℤ base_time)

unfoldable pub details_of : Order → Details
details_of o = record {
  user_id = o.user_id;
  market_id = o.market_id;
  order_type = o.order_type;
  side = o.side;
  price = o.price;
  quantity = o.quantity;
  status = o.status;
  created_at = o.created_at;
  filled_quantity = o.filled_quantity;
}

-- An order from its hash. `fmt.Sscanf` with `%d` does not scan into a `time.Time`: it returns an
-- error, which the code ignores, and the field keeps its zero value.
unfoldable pub read_order : ℕ → Option Details → Order
read_order id none = record zero_order { id = id }
read_order id (some d) = record zero_order {
  id = id;
  user_id = d.user_id;
  market_id = d.market_id;
  order_type = d.order_type;
  side = d.side;
  status = d.status;
  price = d.price;
  quantity = d.quantity;
  filled_quantity = d.filled_quantity;
}

-- The order was taken off the book: cancelled, filled by its quantities or its status, or closed
unfoldable pub is_finished : Order → Bool
is_finished o =
    str_eq o.status cancelled
    || leb_ℤ o.quantity o.filled_quantity
    || str_eq o.status filled
    || str_eq o.status closed

pub record MarketDepth : Type 0 where
  pub market_id : ℕ
  pub buys : List Order
  pub sells : List Order

-- An error of one of the two reads is the answer.
abbrev pub depth_of : ℕ → Option (List Order) → Option (List Order) → Option MarketDepth
depth_of market_id none sells = none
depth_of market_id (some buys) none = none
depth_of market_id (some buys) (some sells) =
    some (record { market_id = market_id; buys = buys; sells = sells })

module _ (server : Server) where
  open server use {Store, zrange, zrevrange, hgetall, exec, publish}

  unfoldable pub first_order : Option (List ℕ) → Store → Option Order
  first_order none st = none
  first_order (some []) st = none
  first_order (some (id ∷ _)) st = elim (hgetall id st) [
    | none ↦ none
    | some d ↦ some (read_order id d)
  ]

  -- `none` is the error, for an empty book too.
  unfoldable pub best_ask_from_redis : ℕ → Store → Option Order
  unfolding first_order
  best_ask_from_redis market_id st = first_order (zrange first_only market_id sell st) st

  unfoldable pub best_bid_from_redis : ℕ → Store → Option Order
  unfolding first_order
  best_bid_from_redis market_id st = first_order (zrevrange first_only market_id buy st) st

  -- The loop of `FetchOrderWithSideFromRedis`: an order whose hash cannot be read is skipped.
  unfoldable pub fetch_orders : List ℕ → Store → List Order
  fetch_orders [] st = []
  fetch_orders (id ∷ ids) st =
      let rest = fetch_orders ids st in
      elim (hgetall id st) [ none ↦ rest | some d ↦ read_order id d ∷ rest ]

  unfoldable pub fetch_order_with_side_from_redis : ℕ → String → Store → Option (List Order)
  unfolding fetch_orders
  fetch_order_with_side_from_redis market_id side st =
      elim (if str_eq side buy
        then zrevrange everything market_id side st
        else zrange everything market_id side st) [
          | none ↦ none
          | some ids ↦ some (fetch_orders ids st)
        ]

  -- The two sides are read by two goroutines, each of which may find another store.
  unfoldable pub get_order_book_from_redis_by_market_id : ℕ → Store → Store → Option MarketDepth
  unfolding fetch_order_with_side_from_redis
  get_order_book_from_redis_by_market_id market_id at_buys at_sells =
      depth_of market_id (fetch_order_with_side_from_redis market_id buy at_buys)
        (fetch_order_with_side_from_redis market_id sell at_sells)

  unfoldable pub update_order_in_redis : Order → Store → Bool × Store
  update_order_in_redis o st =
      if is_finished o
      then exec (zrem o.market_id o.side o.id ∷ del o.id ∷ [])
          (publish o.market_id (order_remove o.id o.market_id) st)
      else exec
          (hset o.id (details_of o)
            ∷ zadd o.market_id o.side (build_score o.price o.created_at) o.id
            ∷ [])
          (publish o.market_id
            (order_update o.id o.market_id o.side o.price o.quantity o.filled_quantity o.status) st)

  -- `InserOrderToRedis`
  unfoldable pub insert_order_to_redis : Order → Store → Bool × Store
  insert_order_to_redis o st =
      exec
        (hset o.id (details_of o)
          ∷ zadd o.market_id o.side (build_score o.price o.created_at) o.id
          ∷ [])
        (publish o.market_id
          (new_order o.id o.market_id o.side o.price o.quantity o.filled_quantity o.status) st)
