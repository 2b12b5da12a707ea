-- ===== src/Redis/View.antt =====
-- What a store of the Redis server holds, and the documented behaviour of the commands and the reads
-- that the program sends.
use cex_go.Prelude.{
  ℕ, String, Bool, true, ◌&&◌, ◌==◌, str_eq, Option, none, some, List, [], ◌∷◌, ◌≡◌, Mem,
  if◌then◌else◌,
}
use cex_go.Prelude.Int.{ℤ, pos, ◌+ℤ◌, ◌≤ℤ◌}
use cex_go.Redis.Commands.{
  Details, Command, zadd, zrem, hset, del, Payload, first_only, everything, Server,
}

-- The hash of each order, and the score of each member of a market's side
pub record View : Type 0 where
  pub hash : ℕ → Option Details
  pub score : ℕ → String → ℕ → Option ℤ

abbrev pub is_entry : ℕ → String → ℕ → ℕ → String → ℕ → Bool
is_entry market_id side id m s k = (market_id == m) && (str_eq side s && (id == k))

-- ZADD, ZREM, HSET of all nine fields, and DEL
abbrev pub after : Command → View → View
after (zadd market_id side z id) v = record {
  hash = v.hash;
  score = λ m s k. if is_entry market_id side id m s k then some z else v.score m s k;
}
after (zrem market_id side id) v = record {
  hash = v.hash;
  score = λ m s k. if is_entry market_id side id m s k then none else v.score m s k;
}
after (hset id d) v = record { hash = λ k. if id == k then some d else v.hash k; score = v.score }
after (del id) v = record { hash = λ k. if id == k then none else v.hash k; score = v.score }

abbrev pub after_all : List Command → View → View
after_all [] v = v
after_all (c ∷ cs) v = after_all cs (after c v)

-- The same hashes and scores
abbrev pub Agrees : View → View → Type 0
Agrees v w =
    ((id : ℕ) → v.hash id ≡ w.hash id)
    × ((m : ℕ) (side : String) (id : ℕ) → v.score m side id ≡ w.score m side id)

-- The answer of ZRANGE 0 0, for `le` the order of the scores: an empty list where the set is empty,
-- or else a member that none goes before.
abbrev pub IsFirst : (ℤ → ℤ → Type 0) → (ℕ → Option ℤ) → List ℕ → Type 0
IsFirst le score [] = (id : ℕ) → score id ≡ none
IsFirst le score (id ∷ _) =
    (z : ℤ) × (score id ≡ some z) × ((k : ℕ) (y : ℤ) → score k ≡ some y → le z y)

-- The answer of ZRANGE 0 -1: the members of the set, in the order of their scores.
abbrev pub IsRanked : (ℤ → ℤ → Type 0) → (ℕ → Option ℤ) → List ℕ → Type 0
IsRanked le score [] = Unit
IsRanked le score (id ∷ ids) =
    ((z : ℤ) × (score id ≡ some z) × ((k : ℕ) (y : ℤ) → Mem k ids → score k ≡ some y → le z y))
    × IsRanked le score ids

-- What the server's comparison of two scores tells of their exact values. A score is kept as a float64
-- near to its exact value, so that two scores whose distance is within `gap` may compare either way.
abbrev pub AtMost : ℕ → ℤ → ℤ → Type 0
AtMost gap a b = a ≤ℤ b +ℤ pos gap

abbrev pub AtLeast : ℕ → ℤ → ℤ → Type 0
AtLeast gap a b = b ≤ℤ a +ℤ pos gap

-- All of them
abbrev pub IsRanking : (ℤ → ℤ → Type 0) → (ℕ → Option ℤ) → List ℕ → Type 0
IsRanking le score ids = IsRanked le score ids × ((id : ℕ) (z : ℤ) → score id ≡ some z → Mem id ids)

-- `gap` bounds, in 10^-13, twice the rounding of the float64 scores in the book, which grows with the
-- highest price. A pipeline that succeeded ran its commands in order, PUBLISH stores nothing, and a read that
-- succeeds tells what is there.
pub record IsRedis (gap : ℕ) (server : Server) (view : server.Store → View) : Type 0 where
  pub exec_agrees :
      (cs : List Command) (st st' : server.Store)
      → server.exec cs st ≡ (true, st')
      → Agrees (view st') (after_all cs (view st))
  pub publish_agrees :
      (m : ℕ) (p : Payload) (st : server.Store) → Agrees (view (server.publish m p st)) (view st)
  pub hgetall_agrees :
      (id : ℕ) (st : server.Store) (d : Option Details)
      → server.hgetall id st ≡ some d
      → d ≡ (view st).hash id
  pub zrange_first :
      (m : ℕ) (side : String) (st : server.Store) (ids : List ℕ)
      → server.zrange first_only m side st ≡ some ids
      → IsFirst (AtMost gap) ((view st).score m side) ids
  pub zrevrange_first :
      (m : ℕ) (side : String) (st : server.Store) (ids : List ℕ)
      → server.zrevrange first_only m side st ≡ some ids
      → IsFirst (AtLeast gap) ((view st).score m side) ids
  pub zrange_ranked :
      (m : ℕ) (side : String) (st : server.Store) (ids : List ℕ)
      → server.zrange everything m side st ≡ some ids
      → IsRanking (AtMost gap) ((view st).score m side) ids
  pub zrevrange_ranked :
      (m : ℕ) (side : String) (st : server.Store) (ids : List ℕ)
      → server.zrevrange everything m side st ≡ some ids
      → IsRanking (AtLeast gap) ((view st).score m side) ids
