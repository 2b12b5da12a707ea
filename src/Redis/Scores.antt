-- ===== src/Redis/Scores.antt =====
-- The order that the scores of internal/db/redis.go give the book, and what an order keeps on the way
-- to Redis and back.
use cex_go.Prelude.{ℕ, ◌+◌, ◌*◌, ◌^◌, ◌≡◌, refl, some, arith}
use cex_go.Prelude.Int.{ℤ, pos, pos_part, neg_part, ◌+ℤ◌, ◌*ℤ◌, ◌≤ℤ◌, ◌<ℤ◌, int_laws}
use cex_go.Models.{Order, zero_time}
use cex_go.Redis.Book.{build_score, read_order, details_of, base_time}

pub scale_parts :
    (a : ℤ)
    → pos_part (a *ℤ pos (10 ^ 5)) + neg_part a * 10 ^ 5
      ≡ neg_part (a *ℤ pos (10 ^ 5)) + pos_part a * 10 ^ 5
unfolding ◌*ℤ◌
scale_parts a = ground arith

-- Of two orders whose prices differ by at least k times 10^-8, the cheaper one has the lower score, if
-- it is not newer than the other by 10^5 times k milliseconds or more.
pub build_score-price :
    (p q t u : ℤ) (k : ℕ)
    → p +ℤ pos k ≤ℤ q
    → t <ℤ u +ℤ pos (k * 10 ^ 5)
    → build_score p t <ℤ build_score q u
unfolding build_score
build_score-price p q t u k h l = omega (int_laws, scale_parts p, scale_parts q, h, l)

-- An order that goes to Redis and is read back keeps every field but the time of its creation, which
-- comes back as the zero time, and the assets, which Redis does not hold.
pub read_order-details_of :
    (o : Order)
    → read_order o.id (some (details_of o))
      ≡ record o { created_at = zero_time; base_asset = ""; quote_asset = "" }
unfolding read_order details_of
read_order-details_of o = refl

-- The score that an order gets when it was read from Redis and is written back, as after a fill in
-- part, puts it below every order whose price is up to 6 units lower and that was created since the
-- program's epoch: an ask is then taken before cheaper ones, a bid after lower ones.
pub build_score-rescored :
    (o : Order) (q u : ℤ)
    → o.price ≤ℤ q +ℤ pos (6 * 10 ^ 8)
    → base_time ≤ℤ u
    → let back = read_order o.id (some (details_of o)) in
      build_score back.price back.created_at <ℤ build_score q u
unfolding build_score read_order details_of
build_score-rescored o q u h k = omega (int_laws, scale_parts o.price, scale_parts q, h, k)
