-- ===== src/Redis/Loading.antt =====
-- `LoadOrderBookToRedis` of internal/db/redis.go: at the start of the program.
pub mod Open
use cex_go.Prelude.{Bool, false, List, [], ◌∷◌}
use cex_go.Models.{Order}
use cex_go.Database.{Session, Result, ok, err}
use cex_go.Queries.Order.Lists.{get_all_active_orders}
use cex_go.Redis.Commands.{Command, zadd, hset, Server}
use cex_go.Redis.Book.{build_score, details_of}

unfoldable pub load_commands : List Order → List Command
load_commands [] = []
load_commands (o ∷ os) =
    zadd o.market_id o.side (build_score o.price o.created_at) o.id
    ∷ hset o.id (details_of o)
    ∷ load_commands os

module _ (server : Server) where
  open server use {Store, exec}

  -- The pipeline is sent only if the query returned no error.
  abbrev pub loaded : Store → Result (List Order) × Session → Bool × Store × Session
  loaded st (err _, s) = (false, st, s)
  loaded st (ok orders, s) = let (done, st') = exec (load_commands orders) st in (done, st', s)

  unfoldable pub load_order_book_to_redis : Store → Session → Bool × Store × Session
  unfolding load_commands
  load_order_book_to_redis st s = loaded st (get_all_active_orders s)
