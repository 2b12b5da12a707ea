-- ===== src/Matching/Synced.antt =====
-- `ApplyOrderResultToRedis` of internal/matching/matchingengine.go: the book that it leaves.
use cex_go.Prelude.{
  ℕ, String, Bool, Bool-cases, true, false, not, ◌&&◌, ◌==◌, str_eq, Option, some, List, [], ◌∷◌,
  ◌≡◌, ◌≢◌, refl, ◌⊎◌, ◌∙◌, All, Mem, if◌then◌else◌, inl, inr, arith,
}
use cex_go.Models.{Order, filled, limit}
use cex_go.Redis.{Details, Server, details_of, update_order_in_redis, insert_order_to_redis}
use cex_go.Redis.View.{View, IsRedis}
use cex_go.Redis.Invariant.{HasPlace, IsBook}
use cex_go.Redis.Writes.{
  with_hash, kept, update_order_in_redis-Written, insert_order_to_redis-Written,
}
use cex_go.Matching.Loop.{OrderResult}
use cex_go.Matching.Settle.{update_others_in_redis, apply_order_result_to_redis}

-- No order of the list has the id and its hash is as it was, or the hash is what such an order leaves.
abbrev pub UpdatedFrom : List Order → ℕ → Option Details → Option Details → Type 0
UpdatedFrom os id before d =
    (((o : Order) → Mem o os → o.id ≢ id) × (d ≡ before))
    ⊎ ((o : Order) × Mem o os × (o.id ≡ id) × (d ≡ kept o))

-- The orders of the list are updated, but for the one with the id `incoming`.
abbrev pub Updated : (ℕ → ℕ × String) → ℕ → List Order → View → View → Type 0
Updated place incoming os v w =
    IsBook place w
    × ((id : ℕ) → id ≢ incoming → UpdatedFrom os id (v.hash id) (w.hash id))
    × (w.hash incoming ≡ v.hash incoming)

-- The incoming order is not filled and of type LIMIT.
abbrev pub rests : Order → Bool
rests o = not (str_eq o.status filled) && str_eq o.order_type limit

-- The others are updated, and the incoming order leaves its details if it rests in the book.
abbrev pub Entered : (ℕ → ℕ × String) → OrderResult → View → View → Type 0
Entered place result v w =
    let incoming = result.incoming_order in
    IsBook place w
    × ((id : ℕ) → id ≢ incoming.id → UpdatedFrom result.updated_orders id (v.hash id) (w.hash id))
    × (w.hash incoming.id
        ≡ (if rests incoming then some (details_of incoming) else v.hash incoming.id))

module _ (server : Server) (view : server.Store → View) {gap : ℕ} (redis : IsRedis gap server view)
    (place : ℕ → ℕ × String) where
  open server use {Store}

  -- The order itself is passed over.
  first-IsBook :
      (own : Bool) (o : Order) (st : Store)
      → IsBook place (view st)
      → HasPlace place o
      → let first = if own then (true, st) else update_order_in_redis server o st in
        first.0 ≡ true
        → IsBook place (view first.1)
          × ((id : ℕ)
              → (view first.1).hash id
                ≡ (if own then (view st).hash id else with_hash o.id (kept o) (view st) id))
  first-IsBook true o st b h e = (b, λ id. refl)
  first-IsBook false o st b h e = update_order_in_redis-Written server view redis place o st b h e

  then-Updated :
      (incoming : ℕ) (o : Order) (os : List Order) (v u w : View)
      → ((id : ℕ)
          → u.hash id ≡ (if o.id == incoming then v.hash id else with_hash o.id (kept o) v id))
      → Updated place incoming os u w
      → Updated place incoming (o ∷ os) v w
  then-Updated incoming o os v u w first (b, others, own) = (
    b,
    λ id k. elim (others id k) [
      | inr (p, m, i, e) ↦ inr (p, inr m, i, e)
      | inl (absent, e) ↦ elim (Bool-cases (o.id == id)) [
        | inl h ↦
            let same : o.id ≡ id = ground (arith, h) in
            let other : (o.id == incoming) ≡ false = ground (arith, same, k) in
            inr (o, inl refl, same, e ∙ first id ∙ rw (other, h) refl)
        | inr h ↦ inl (
          λ p m. elim m [ inl q ↦ rw q (ground (arith, h)) | inr m' ↦ absent p m' ],
          e ∙ first id ∙ ground (arith, h),
        )
      ]
    ],
    own ∙ first incoming ∙ ground arith,
  )

  continued-Updated :
      (incoming : ℕ) (o : Order) (os : List Order) (st : Store) (first : Bool × Store)
      (rest : Store → Bool × Store)
      → (first.0 ≡ true
          → IsBook place (view first.1)
            × ((id : ℕ)
                → (view first.1).hash id ≡ (
                    if o.id == incoming
                    then (view st).hash id
                    else with_hash o.id (kept o) (view st) id)))
      → ((st' : Store)
          → IsBook place (view st')
          → (rest st').0 ≡ true
          → Updated place incoming os (view st') (view (rest st').1))
      → let r = if first.0 then rest first.1 else (false, first.1) in
        r.0 ≡ true → Updated place incoming (o ∷ os) (view st) (view r.1)
  continued-Updated incoming o os st (false, st') rest one h e = absurd (cc e)
  continued-Updated incoming o os st (true, st') rest one h e =
      let (b, first) = one refl in
      then-Updated incoming o os (view st) (view st') (view (rest st').1) first (h st' b e)

  update_others_in_redis-Updated :
      (incoming : ℕ) (os : List Order) (st : Store)
      → IsBook place (view st)
      → All (HasPlace place) os
      → (update_others_in_redis server incoming os st).0 ≡ true
      → Updated place incoming os (view st) (view (update_others_in_redis server incoming os st).1)
  unfolding update_others_in_redis
  update_others_in_redis-Updated incoming [] st b h e =
      (b, (λ id _. inl (λ _ m. absurd m, refl)), refl)
  update_others_in_redis-Updated incoming (o ∷ os) st b (h, hs) e =
      continued-Updated incoming o os st
        (if o.id == incoming then (true, st) else update_order_in_redis server o st)
        (update_others_in_redis server incoming os) (first-IsBook (o.id == incoming) o st b h)
        (λ st' b'. update_others_in_redis-Updated incoming os st' b' hs) e

  inserted-Entered :
      (resting : Bool) (result : OrderResult) (v : View) (st : Store)
      → Updated place result.incoming_order.id result.updated_orders v (view st)
      → HasPlace place result.incoming_order
      → let incoming = result.incoming_order in
        let r = if resting then insert_order_to_redis server incoming st else (true, st) in
        r.0 ≡ true
        → IsBook place (view r.1)
          × ((id : ℕ)
              → id ≢ incoming.id
              → UpdatedFrom result.updated_orders id (v.hash id) ((view r.1).hash id))
          × ((view r.1).hash incoming.id
              ≡ (if resting then some (details_of incoming) else v.hash incoming.id))
  inserted-Entered false result v st u h e = u
  inserted-Entered true result v st (b, others, own) h e =
      let incoming = result.incoming_order in
      let (b', hs) = insert_order_to_redis-Written server view redis place incoming st b h e in
      let other : (id : ℕ) → id ≢ incoming.id → (incoming.id == id) ≡ false =
        λ id k. ground (arith, k) in
      (b', λ id k. rw (hs id) (rw (other id k) (others id k)), hs incoming.id ∙ ground arith)

  applied-Entered :
      (result : OrderResult) (v : View) (updated : Bool × Store)
      → (updated.0 ≡ true
          → Updated place result.incoming_order.id result.updated_orders v (view updated.1))
      → HasPlace place result.incoming_order
      → let insert = insert_order_to_redis server result.incoming_order updated.1 in
        let r =
          if not updated.0
          then (false, updated.1)
          else if rests result.incoming_order
          then insert
          else (true, updated.1) in
        r.0 ≡ true → Entered place result v (view r.1)
  applied-Entered result v (false, st) u h e = absurd (cc e)
  applied-Entered result v (true, st) u h e =
      inserted-Entered (rests result.incoming_order) result v st (u refl) h e

  -- `ApplyOrderResultToRedis` without an error, on a book whose sides hold exactly the orders with a
  -- hash that belong there, by the score of price and time: that still holds, an incoming order that is a
  -- LIMIT order and not filled has its details in its hash, and otherwise keeps the hash it had, each other
  -- order of the result has the hash that one of its updates leaves, none if the update finished it, and
  -- the hashes of all other orders are as they were.
  pub apply_order_result_to_redis-Entered :
      (result : OrderResult) (st : Store)
      → IsBook place (view st)
      → HasPlace place result.incoming_order
      → All (HasPlace place) result.updated_orders
      → (apply_order_result_to_redis server result st).0 ≡ true
      → Entered place result (view st) (view (apply_order_result_to_redis server result st).1)
  unfolding apply_order_result_to_redis
  apply_order_result_to_redis-Entered result st b h hs e =
      let incoming = result.incoming_order in
      applied-Entered result (view st)
        (update_others_in_redis server incoming.id result.updated_orders st)
        (update_others_in_redis-Updated incoming.id result.updated_orders st b hs) h e
