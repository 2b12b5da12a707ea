-- ===== src/Redis/Depth.antt =====
-- `FetchOrderWithSideFromRedis` and `GetOrderBookFromRedisByMarketId`: a whole side of the book.
use cex_go.Redis.Sides.{IsSide, found-IsSide}
use cex_go.Prelude.{ℕ, String, Option, none, some, List, ◌≡◌, arith}
use cex_go.Models.{Order, buy, sell}
use cex_go.Redis.Commands.{Server, everything}
use cex_go.Redis.Book.{
  fetch_order_with_side_from_redis, MarketDepth, depth_of, get_order_book_from_redis_by_market_id,
}
use cex_go.Redis.View.{View, IsRedis, AtMost, AtLeast}
use cex_go.Redis.Invariant.{IsBook}
use cex_go.Redis.Best.{AskBefore, BidBefore, score-AskBefore, score-BidBefore}

module _ (server : Server) (view : server.Store → View) {gap : ℕ} (redis : IsRedis gap server view)
    (place : ℕ → ℕ × String) where
  open server use {Store, zrange, zrevrange}

  buys-IsSide :
      (m : ℕ) (st : Store) (os : List Order)
      → IsBook place (view st)
      → fetch_order_with_side_from_redis server m buy st ≡ some os
      → IsSide server view (BidBefore gap) m buy st os
  unfolding fetch_order_with_side_from_redis
  buys-IsSide m st os b e =
      found-IsSide server view redis place (AtLeast gap) (BidBefore gap) (score-BidBefore gap) m buy
        st b (zrevrange everything m buy st) os (redis.zrevrange_ranked m buy st) e

  sells-IsSide :
      (m : ℕ) (st : Store) (os : List Order)
      → IsBook place (view st)
      → fetch_order_with_side_from_redis server m sell st ≡ some os
      → IsSide server view (AskBefore gap) m sell st os
  unfolding fetch_order_with_side_from_redis
  sells-IsSide m st os b e =
      found-IsSide server view redis place (AtMost gap) (AskBefore gap) (score-AskBefore gap) m sell
        st b (zrange everything m sell st) os (redis.zrange_ranked m sell st) e

  depth_of-parts :
      (m : ℕ) (buys sells : Option (List Order)) (depth : MarketDepth)
      → depth_of m buys sells ≡ some depth
      → (depth.market_id ≡ m) × (buys ≡ some depth.buys) × (sells ≡ some depth.sells)
  depth_of-parts m none sells depth e = absurd (cc e)
  depth_of-parts m (some bs) none depth e = absurd (cc e)
  depth_of-parts m (some bs) (some ss) depth e = ground (arith, e)

  -- `GetOrderBookFromRedisByMarketId`, where each of the two reads meets a store whose sides hold exactly
  -- the orders with a hash that belong there, by the score of price and time: the buys and the sells
  -- that it returns are orders of that side of the market, as their hashes have them, all of them whose
  -- hash can be read, and in the order of the matching engine: of two sells the later one is cheaper by
  -- k times 10^-8, k from 0, only if it is newer by at least 10^5 times k milliseconds, less the `gap`
  -- milliseconds that the float64 scores of the book cannot tell apart, and of two buys the later one is
  -- higher only if it is older by as much.
  pub get_order_book_from_redis_by_market_id-IsSide :
      (m : ℕ) (at_buys at_sells : Store) (depth : MarketDepth)
      → IsBook place (view at_buys)
      → IsBook place (view at_sells)
      → get_order_book_from_redis_by_market_id server m at_buys at_sells ≡ some depth
      → (depth.market_id ≡ m)
        × IsSide server view (BidBefore gap) m buy at_buys depth.buys
        × IsSide server view (AskBefore gap) m sell at_sells depth.sells
  unfolding get_order_book_from_redis_by_market_id
  get_order_book_from_redis_by_market_id-IsSide m at_buys at_sells depth b b' e =
      let (i, bs, ss) =
        depth_of-parts m (fetch_order_with_side_from_redis server m buy at_buys)
          (fetch_order_with_side_from_redis server m sell at_sells) depth e in
      (i, buys-IsSide m at_buys depth.buys b bs, sells-IsSide m at_sells depth.sells b' ss)
