-- ===== src/Redis/Invariant.antt =====
-- The book as a whole: what the writes of internal/db/redis.go keep of it.
use cex_go.Prelude.{
  ℕ, String, Bool-cases, false, ◌&&◌, ◌==◌, str_eq, Option, none, some, List, [], ◌∷◌, ◌≡◌, refl,
  ◌∙◌, if◌then◌else◌, inl, inr, arith,
}
use cex_go.Prelude.Int.{ℤ}
use cex_go.Models.{Order}
use cex_go.Redis.Commands.{Details, Command, zadd, zrem, hset, del}
use cex_go.Redis.Book.{build_score, details_of}
use cex_go.Redis.View.{View, Agrees, after_all}

-- The score that an order's hash gives it on a side of a market
abbrev pub listed : ℕ → String → Option Details → Option ℤ
listed m side none = none
listed m side (some d) =
    if (d.market_id == m) && str_eq d.side side
    then some (build_score d.price d.created_at)
    else none

-- An order never changes its market and its side: `place` tells them.
abbrev pub HasPlace : (ℕ → ℕ × String) → Order → Type 0
HasPlace place o = (o.market_id ≡ (place o.id).0) × (o.side ≡ (place o.id).1)

-- The sorted sets hold exactly the orders that have a hash, each on the side of its market, with the
-- score of its price and its time.
abbrev pub IsBook : (ℕ → ℕ × String) → View → Type 0
IsBook place v =
    ((m : ℕ) (side : String) (id : ℕ) → v.score m side id ≡ listed m side (v.hash id))
    × ((id : ℕ) (d : Details)
        → v.hash id ≡ some d
        → (d.market_id ≡ (place id).0) × (d.side ≡ (place id).1))

abbrev pub put_commands : Order → List Command
put_commands o =
    hset o.id (details_of o) ∷ zadd o.market_id o.side (build_score o.price o.created_at) o.id ∷ []

abbrev pub take_commands : Order → List Command
take_commands o = zrem o.market_id o.side o.id ∷ del o.id ∷ []

module _ (place : ℕ → ℕ × String) where
  pub IsBook-Agrees : (v w : View) → Agrees w v → IsBook place v → IsBook place w
  IsBook-Agrees v w (hs, ss) (b, p) =
      (λ m side id. rw (ss m side id, hs id) (b m side id), λ id d e. p id d (rw (← hs id) e))

  -- An order is on no side but its own.
  elsewhere :
      (v : View) (o : Order) (m : ℕ) (side : String)
      → IsBook place v
      → HasPlace place o
      → ((o.market_id == m) && str_eq o.side side) ≡ false
      → v.score m side o.id ≡ none
  elsewhere v o m side (b, p) (hm, hs) e = b m side o.id ∙ unlisted (v.hash o.id) (p o.id)
    where
      unlisted :
          (h : Option Details)
          → ((d : Details)
              → h ≡ some d
              → (d.market_id ≡ (place o.id).0) × (d.side ≡ (place o.id).1))
          → listed m side h ≡ none
      unlisted none q = refl
      unlisted (some d) q = rw ((q d refl).0, (q d refl).1, ← hm, ← hs, e) refl

  pub put-IsBook :
      (v : View) (o : Order)
      → IsBook place v
      → HasPlace place o
      → IsBook place (after_all (put_commands o) v)
  unfolding details_of
  put-IsBook v o (b, p) h = (
    λ m side id. elim (Bool-cases (o.id == id)) [
      | inr e ↦ ground (arith, e, b m side id)
      | inl e ↦ elim (Bool-cases ((o.market_id == m) && str_eq o.side side)) [
        | inl k ↦ ground (arith, e, k)
        | inr k ↦
            let e' : o.id ≡ id = ground (arith, e) in
            ground (arith, e, k, e', elsewhere v o m side (b, p) h k)
      ]
    ],
    λ id d e. elim (Bool-cases (o.id == id)) [
      | inr k ↦ p id d (ground (arith, e, k))
      | inl k ↦ let e' : o.id ≡ id = ground (arith, k) in ground (arith, e, k, e', h)
    ],
  )

  pub take-IsBook :
      (v : View) (o : Order)
      → IsBook place v
      → HasPlace place o
      → IsBook place (after_all (take_commands o) v)
  take-IsBook v o (b, p) h = (
    λ m side id. elim (Bool-cases (o.id == id)) [
      | inr e ↦ ground (arith, e, b m side id)
      | inl e ↦ elim (Bool-cases ((o.market_id == m) && str_eq o.side side)) [
        | inl k ↦ ground (arith, e, k)
        | inr k ↦
            let e' : o.id ≡ id = ground (arith, e) in
            ground (arith, e, k, e', elsewhere v o m side (b, p) h k)
      ]
    ],
    λ id d e. elim (Bool-cases (o.id == id)) [
      | inr k ↦ p id d (ground (arith, e, k))
      | inl k ↦ ground (arith, e, k)
    ],
  )
