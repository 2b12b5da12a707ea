-- ===== src/Redis/Sides.antt =====
-- The loop of `FetchOrderWithSideFromRedis` over the members of a side.
use cex_go.Prelude.{
  ℕ, String, Option, none, some, List, [], ◌∷◌, ◌≡◌, ◌≢◌, ◌⊎◌, refl, sym, ◌∙◌, ap, inl, inr, Mem,
  All, All-mono,
}
use cex_go.Prelude.Int.{ℤ}
use cex_go.Models.{Order}
use cex_go.Database.Listing.Sorting.{IsPairwise}
use cex_go.Redis.Commands.{Details, Server}
use cex_go.Redis.Book.{read_order, fetch_orders}
use cex_go.Redis.View.{View, IsRedis, IsRanked, IsRanking}
use cex_go.Redis.Invariant.{IsBook, listed}
use cex_go.Redis.Best.{StandsOn, score_of, listed-stands, stands-listed}

-- The order was read from its hash, and stands on the side.
abbrev pub IsRead : ℕ → String → View → Order → Type 0
IsRead m side v o =
    (d : Details) × (v.hash o.id ≡ some d) × (o ≡ read_order o.id (some d)) × StandsOn m side d

-- One order may be listed before another, by what their hashes say.
abbrev pub ListedBefore : (Details → Details → Type 0) → View → Order → Order → Type 0
ListedBefore before v o p =
    (d c : Details) → v.hash o.id ≡ some d → v.hash p.id ≡ some c → before d c

read_order_id : (id : ℕ) (h : Option Details) → (read_order id h).id ≡ id
unfolding read_order
read_order_id id none = refl
read_order_id id (some d) = refl

module _ (server : Server) (view : server.Store → View) where
  open server use {Store, hgetall}

  -- The list is in order, it holds orders of the side alone, and all of them whose hash can be read.
  abbrev pub IsSide : (Details → Details → Type 0) → ℕ → String → Store → List Order → Type 0
  IsSide before m side st os =
      All (IsRead m side (view st)) os
      × IsPairwise (ListedBefore before (view st)) os
      × ((k : ℕ) (c : Details)
          → (view st).hash k ≡ some c
          → StandsOn m side c
          → hgetall k st ≢ none
          → Mem (read_order k (some c)) os)

module _ (server : Server) (view : server.Store → View) {gap : ℕ} (redis : IsRedis gap server view)
    (place : ℕ → ℕ × String) where
  open server use {Store, zrange, zrevrange, hgetall}

  module _ (le : ℤ → ℤ → Type 0) (before : Details → Details → Type 0)
      (scored : (d c : Details) → le (score_of d) (score_of c) → before d c) (m : ℕ) (side : String)
      (st : Store) (b : IsBook place (view st)) where
    member-IsRead :
        (id : ℕ) (z : ℤ) (h : Option Details)
        → (view st).score m side id ≡ some z
        → h ≡ (view st).hash id
        → IsRead m side (view st) (read_order id h)
    unfolding read_order
    member-IsRead id z none s e = absurd (cc (b.0 m side id, ap (listed m side) e))
    member-IsRead id z (some d) s e =
        let (on, q) = listed-stands m side d z (ap (listed m side) e ∙ sym (b.0 m side id) ∙ s) in
        (d, sym e, refl, on)

    fetched-All :
        (P Q : Order → Type 0) (id : ℕ) (h : Option (Option Details)) (os : List Order)
        → ((o : Order) → P o → Q o)
        → ((d : Option Details) → h ≡ some d → Q (read_order id d))
        → All P os
        → All Q (elim h [ none ↦ os | some d ↦ read_order id d ∷ os ])
    fetched-All P Q id none os f q a = All-mono P Q os f a
    fetched-All P Q id (some d) os f q a = (q d refl, All-mono P Q os f a)

    fetch_orders-IsRead :
        (ids : List ℕ)
        → IsRanked le ((view st).score m side) ids
        → All (λ o. Mem o.id ids × IsRead m side (view st) o) (fetch_orders server ids st)
    unfolding fetch_orders
    fetch_orders-IsRead [] r = tt
    fetch_orders-IsRead (id ∷ ids) ((z, s, all), r) =
        fetched-All (λ o. Mem o.id ids × IsRead m side (view st) o)
          (λ o. Mem o.id (id ∷ ids) × IsRead m side (view st) o) id (hgetall id st)
          (fetch_orders server ids st) (λ o (k, q). (inr k, q))
          (λ h e.
            (inl (read_order_id id h), member-IsRead id z h s (redis.hgetall_agrees id st h e)))
          (fetch_orders-IsRead ids r)

    fetched-IsPairwise :
        (P : Order → Order → Type 0) (id : ℕ) (h : Option (Option Details)) (os : List Order)
        → ((d : Option Details) → h ≡ some d → All (P (read_order id d)) os)
        → IsPairwise P os
        → IsPairwise P (elim h [ none ↦ os | some d ↦ read_order id d ∷ os ])
    fetched-IsPairwise P id none os q a = a
    fetched-IsPairwise P id (some d) os q a = (q d refl, a)

    fetch_orders-IsPairwise :
        (ids : List ℕ)
        → IsRanked le ((view st).score m side) ids
        → IsPairwise (ListedBefore before (view st)) (fetch_orders server ids st)
    unfolding fetch_orders
    fetch_orders-IsPairwise [] r = tt
    fetch_orders-IsPairwise (id ∷ ids) ((z, s, all), r) =
        fetched-IsPairwise (ListedBefore before (view st)) id (hgetall id st)
          (fetch_orders server ids st)
          (λ h _.
            All-mono (λ o. Mem o.id ids × IsRead m side (view st) o)
              (ListedBefore before (view st) (read_order id h)) (fetch_orders server ids st)
              (λ p (k, (c', e', _, on')) d c e f.
                let own : (view st).hash id ≡ some d = rw (← read_order_id id h) e in
                let same : c' ≡ c = cc (e', f) in
                let (_, q) =
                  listed-stands m side d z
                    (ap (listed m side) (sym own) ∙ sym (b.0 m side id) ∙ s) in
                scored d c (
                  rw (← q) (
                    all p.id (score_of c) k
                      (b.0 m side p.id ∙ rw f (stands-listed m side c (rw (← same) on'))))))
              (fetch_orders-IsRead ids r))
          (fetch_orders-IsPairwise ids r)

    fetched-Mem :
        (k id : ℕ) (c : Details) (h : Option (Option Details)) (os : List Order)
        → ((k ≡ id) × (h ≡ some (some c))) ⊎ Mem (read_order k (some c)) os
        → Mem (read_order k (some c)) (elim h [ none ↦ os | some d ↦ read_order id d ∷ os ])
    fetched-Mem k id c none os (inl (_, e)) = absurd (cc e)
    fetched-Mem k id c (some d) os (inl (i, e)) = inl (cc (i, e))
    fetched-Mem k id c none os (inr m) = m
    fetched-Mem k id c (some d) os (inr m) = inr m

    fetch_orders-Mem :
        (k : ℕ) (c : Details) (ids : List ℕ)
        → Mem k ids
        → hgetall k st ≡ some (some c)
        → Mem (read_order k (some c)) (fetch_orders server ids st)
    unfolding fetch_orders
    fetch_orders-Mem k c [] i e = absurd i
    fetch_orders-Mem k c (id ∷ ids) (inl i) e =
        fetched-Mem k id c (hgetall id st) (fetch_orders server ids st) (inl (i, rw (← i) e))
    fetch_orders-Mem k c (id ∷ ids) (inr i) e =
        fetched-Mem k id c (hgetall id st) (fetch_orders server ids st)
          (inr (fetch_orders-Mem k c ids i e))

    was_read :
        (k : ℕ) (c : Details) (h : Option (Option Details))
        → (view st).hash k ≡ some c
        → h ≢ none
        → ((d : Option Details) → h ≡ some d → d ≡ (view st).hash k)
        → h ≡ some (some c)
    was_read k c none e n r = absurd (n refl)
    was_read k c (some d) e n r = ap some (r d refl ∙ e)

    ranked-IsSide :
        (ids : List ℕ)
        → IsRanking le ((view st).score m side) ids
        → IsSide server view before m side st (fetch_orders server ids st)
    ranked-IsSide ids (r, whole) = (
      All-mono (λ o. Mem o.id ids × IsRead m side (view st) o) (IsRead m side (view st))
          (fetch_orders server ids st) (λ _ q. q.1) (fetch_orders-IsRead ids r),
      fetch_orders-IsPairwise ids r,
      λ k c e on n.
          fetch_orders-Mem k c ids
            (whole k (score_of c) (b.0 m side k ∙ rw e (stands-listed m side c on)))
            (was_read k c (hgetall k st) e n (redis.hgetall_agrees k st)),
    )

    pub found-IsSide :
        (found : Option (List ℕ)) (os : List Order)
        → ((ids : List ℕ) → found ≡ some ids → IsRanking le ((view st).score m side) ids)
        → elim found [ none ↦ none | some ids ↦ some (fetch_orders server ids st) ] ≡ some os
        → IsSide server view before m side st os
    found-IsSide none os r e = absurd (cc e)
    found-IsSide (some ids) os r e =
        let same : fetch_orders server ids st ≡ os = cc e in
        rw (← same) (ranked-IsSide ids (r ids refl))
