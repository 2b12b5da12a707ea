-- ===== src/Redis/Best.antt =====
-- `BestAskFromRedis` and `BestBidFromRedis`: the order that the matching engine meets first.
use cex_go.Prelude.{
  ℕ, ◌*◌, ◌^◌, String, Bool-cases, ◌&&◌, ◌==◌, str_eq, eq_iff, eq_refl, Option, none, some, List,
  [], ◌∷◌, ◌≡◌, refl, sym, ◌∙◌, ap, inl, inr, arith,
}
use cex_go.Prelude.Int.{ℤ, pos, ◌+ℤ◌, ◌≤ℤ◌, int_laws}
use cex_go.Models.{Order, buy, sell}
use cex_go.Redis.Commands.{Details, Server, first_only}
use cex_go.Redis.Book.{
  build_score, read_order, first_order, best_ask_from_redis, best_bid_from_redis,
}
use cex_go.Redis.Scores.{scale_parts}
use cex_go.Redis.View.{View, IsRedis, IsFirst, AtMost, AtLeast}
use cex_go.Redis.Invariant.{IsBook, listed}

-- The details that stand on a side of a market
abbrev pub StandsOn : ℕ → String → Details → Type 0
StandsOn m side d = (d.market_id ≡ m) × (d.side ≡ side)

abbrev pub score_of : Details → ℤ
score_of d = build_score d.price d.created_at

-- The order was read from its hash, stands on the side, and is before all that stand there.
abbrev pub IsBest : (Details → Details → Type 0) → ℕ → String → View → Order → Type 0
IsBest before m side v o =
    (d : Details) × (v.hash o.id ≡ some d)
    × (o ≡ read_order o.id (some d))
    × StandsOn m side d
    × ((k : ℕ) (c : Details) → v.hash k ≡ some c → StandsOn m side c → before d c)

-- If the other ask is cheaper by k times 10^-8, it is newer by at least 10^5 times k milliseconds, less
-- the `gap` milliseconds that the scores cannot tell apart: of two asks of one price, this one is newer
-- by `gap` at most.
abbrev pub AskBefore : ℕ → Details → Details → Type 0
AskBefore gap d c =
    (k : ℕ)
    → c.price +ℤ pos k ≤ℤ d.price
    → d.created_at +ℤ pos (k * 10 ^ 5) ≤ℤ c.created_at +ℤ pos gap

-- If the other bid is higher by k times 10^-8, it is older by at least 10^5 times k milliseconds, less
-- `gap`: of two bids of one price, this one is older by `gap` at most.
abbrev pub BidBefore : ℕ → Details → Details → Type 0
BidBefore gap d c =
    (k : ℕ)
    → d.price +ℤ pos k ≤ℤ c.price
    → c.created_at +ℤ pos (k * 10 ^ 5) ≤ℤ d.created_at +ℤ pos gap

pub score-AskBefore :
    (gap : ℕ) (d c : Details) → AtMost gap (score_of d) (score_of c) → AskBefore gap d c
unfolding build_score
score-AskBefore gap d c h k p = omega (int_laws, scale_parts d.price, scale_parts c.price)

pub score-BidBefore :
    (gap : ℕ) (d c : Details) → AtLeast gap (score_of d) (score_of c) → BidBefore gap d c
unfolding build_score
score-BidBefore gap d c h k p = omega (int_laws, scale_parts d.price, scale_parts c.price)

pub listed-stands :
    (m : ℕ) (side : String) (d : Details) (z : ℤ)
    → listed m side (some d) ≡ some z
    → StandsOn m side d × (z ≡ score_of d)
listed-stands m side d z e = elim (Bool-cases ((d.market_id == m) && str_eq d.side side)) [
  | inl k ↦ ((ground (arith, k), (eq_iff d.side side).0 (ground (arith, k))), ground (arith, k, e))
  | inr k ↦ absurd (ground (arith, k, e))
]

pub stands-listed :
    (m : ℕ) (side : String) (d : Details)
    → StandsOn m side d
    → listed m side (some d) ≡ some (score_of d)
stands-listed m side d (a, b) = rw (a, b, eq_refl side) (ground arith)

module _ (server : Server) (view : server.Store → View) {gap : ℕ} (redis : IsRedis gap server view)
    (place : ℕ → ℕ × String) where
  open server use {Store, zrange, zrevrange, hgetall}

  module _ (le : ℤ → ℤ → Type 0) (before : Details → Details → Type 0)
      (scored : (d c : Details) → le (score_of d) (score_of c) → before d c) where
    ranked-IsBest :
        (m : ℕ) (side : String) (id : ℕ) (ids : List ℕ) (st : Store) (h : Option Details)
        → IsBook place (view st)
        → IsFirst le ((view st).score m side) (id ∷ ids)
        → h ≡ (view st).hash id
        → IsBest before m side (view st) (read_order id h)
    unfolding read_order
    ranked-IsBest m side id ids st none (b, p) (z, s, all) e =
        absurd (cc (b m side id, ap (listed m side) e))
    ranked-IsBest m side id ids st (some d) (b, p) (z, s, all) e =
        let (on, q) = listed-stands m side d z (ap (listed m side) e ∙ sym (b m side id) ∙ s) in
        (
          d,
          sym e,
          refl,
          on,
          λ k c h on'.
              scored d c
                (rw (← q) (all k (score_of c) (b m side k ∙ rw h (stands-listed m side c on')))),
        )

    read-IsBest :
        (m : ℕ) (side : String) (id : ℕ) (ids : List ℕ) (st : Store) (h : Option (Option Details))
        (o : Order)
        → IsBook place (view st)
        → IsFirst le ((view st).score m side) (id ∷ ids)
        → ((d : Option Details) → h ≡ some d → d ≡ (view st).hash id)
        → elim h [ none ↦ none | some d ↦ some (read_order id d) ] ≡ some o
        → IsBest before m side (view st) o
    read-IsBest m side id ids st none o b f r e = absurd (cc e)
    read-IsBest m side id ids st (some h) o b f r e =
        let same : read_order id h ≡ o = cc e in
        rw (← same) (ranked-IsBest m side id ids st h b f (r h refl))

    first_order-IsBest :
        (m : ℕ) (side : String) (st : Store) (found : Option (List ℕ)) (o : Order)
        → IsBook place (view st)
        → ((ids : List ℕ) → found ≡ some ids → IsFirst le ((view st).score m side) ids)
        → first_order server found st ≡ some o
        → IsBest before m side (view st) o
    unfolding first_order
    first_order-IsBest m side st none o b f e = absurd (cc e)
    first_order-IsBest m side st (some []) o b f e = absurd (cc e)
    first_order-IsBest m side st (some (id ∷ ids)) o b f e =
        read-IsBest m side id ids st (hgetall id st) o b (f (id ∷ ids) refl)
          (redis.hgetall_agrees id st) e

  -- `BestAskFromRedis`, on a book whose sides hold exactly the orders with a hash that belong there, by
  -- the score of price and time: the order that it returns has a hash, comes from it, and is a sell order
  -- of the market, and a sell order of the market that is cheaper by k times 10^-8, k from 0, is newer by
  -- at least 10^5 times k milliseconds, less the `gap` milliseconds that the float64 scores of the book
  -- cannot tell apart.
  pub best_ask_from_redis-IsBest :
      (m : ℕ) (st : Store) (o : Order)
      → IsBook place (view st)
      → best_ask_from_redis server m st ≡ some o
      → IsBest (AskBefore gap) m sell (view st) o
  unfolding best_ask_from_redis
  best_ask_from_redis-IsBest m st o b e =
      first_order-IsBest (AtMost gap) (AskBefore gap) (score-AskBefore gap) m sell st
        (zrange first_only m sell st) o b (redis.zrange_first m sell st) e

  -- `BestBidFromRedis`, on such a book: the order that it returns has a hash, comes from it, and is a buy
  -- order of the market, and a buy order of the market that is higher by k times 10^-8, k from 0, is older
  -- by at least 10^5 times k milliseconds, less `gap`, so that none of the same price is newer by more than
  -- `gap`.
  pub best_bid_from_redis-IsBest :
      (m : ℕ) (st : Store) (o : Order)
      → IsBook place (view st)
      → best_bid_from_redis server m st ≡ some o
      → IsBest (BidBefore gap) m buy (view st) o
  unfolding best_bid_from_redis
  best_bid_from_redis-IsBest m st o b e =
      first_order-IsBest (AtLeast gap) (BidBefore gap) (score-BidBefore gap) m buy st
        (zrevrange first_only m buy st) o b (redis.zrevrange_first m buy st) e
