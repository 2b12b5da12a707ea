-- ===== src/Redis/Commands.antt =====
-- What the program uses of the Redis server and its client library (go-redis): the commands that
-- change the store, sent one by one or as a pipeline, and the reads. The server is a parameter.
use cex_go.Prelude.{ℕ, String, Bool, Option, List}
use cex_go.Prelude.Int.{ℤ}

-- The nine fields of a hash `order:<id>`
pub record Details : Type 0 where
  pub user_id : ℕ
  pub market_id : ℕ
  pub order_type : String
  pub side : String
  pub price : ℤ
  pub quantity : ℤ
  pub status : String
  pub created_at : ℤ
  pub filled_quantity : ℤ

-- A key is a market's side, `orderbook:<market>:<side>`, or an order's id, `order:<id>`. A score
-- counts 10^-13.
pub data Command : Type 0 where
  zadd : ℕ → String → ℤ → ℕ → Command
  zrem : ℕ → String → ℕ → Command
  hset : ℕ → Details → Command
  del : ℕ → Command

-- The JSON payloads on a market's channel, `orderbook:<market>`: the order's id, its market, and for
-- the latter two its side, price, quantity, filled quantity and status
pub data Payload : Type 0 where
  order_remove : ℕ → ℕ → Payload
  order_update new_order : ℕ → ℕ → String → ℤ → ℤ → ℤ → String → Payload

-- The indices of a range: `0, 0` or `0, -1`
pub data Span : Type 0 where
  first_only everything : Span

-- A read that fails is `none`. A hash that is not there is empty: `some none`. A pipeline reports
-- whether it succeeded.
pub record Server : Type 1 where
  pub Store : Type 0
  pub zrange : Span → ℕ → String → Store → Option (List ℕ)
  pub zrevrange : Span → ℕ → String → Store → Option (List ℕ)
  pub hgetall : ℕ → Store → Option (Option Details)
  pub exec : List Command → Store → Bool × Store
  pub publish : ℕ → Payload → Store → Store
