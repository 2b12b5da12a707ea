-- ===== src/Redis/Writes.antt =====
-- `UpdateOrderInRedis` and `InserOrderToRedis`: the book that they leave.
use cex_go.Prelude.{
  ℕ, String, Bool-cases, true, ◌==◌, Option, none, some, List, ◌≡◌, refl, ap, ◌∙◌, if◌then◌else◌,
  inl, inr,
}
use cex_go.Models.{Order}
use cex_go.Redis.Commands.{Details, Command, Server, Payload, order_remove, order_update, new_order}
use cex_go.Redis.Book.{details_of, is_finished, update_order_in_redis, insert_order_to_redis}
use cex_go.Redis.View.{View, IsRedis, Agrees, after_all}
use cex_go.Redis.Invariant.{
  HasPlace, IsBook, IsBook-Agrees, put_commands, take_commands, put-IsBook, take-IsBook,
}

-- The hash of an order that was written, in place of an earlier one
abbrev pub with_hash : ℕ → Option Details → View → ℕ → Option Details
with_hash k h v id = if k == id then h else v.hash id

-- A book in which one order has another hash
abbrev pub Written : (ℕ → ℕ × String) → ℕ → Option Details → View → View → Type 0
Written place k h v w = IsBook place w × ((id : ℕ) → w.hash id ≡ with_hash k h v id)

-- What an order leaves in Redis when it is updated
abbrev pub kept : Order → Option Details
kept o = if is_finished o then none else some (details_of o)

module _ (server : Server) (view : server.Store → View) {gap : ℕ} (redis : IsRedis gap server view)
    (place : ℕ → ℕ × String) where
  open server use {Store, exec, publish}

  executed :
      (cs : List Command) (st : Store)
      → (exec cs st).0 ≡ true
      → Agrees (view (exec cs st).1) (after_all cs (view st))
  executed cs st e = redis.exec_agrees cs st (exec cs st).1 (ap (λ b. (b, (exec cs st).1)) e)

  published-IsBook :
      (m : ℕ) (p : Payload) (st : Store)
      → IsBook place (view st)
      → IsBook place (view (publish m p st))
  published-IsBook m p st b =
      IsBook-Agrees place (view st) (view (publish m p st)) (redis.publish_agrees m p st) b

  put-Written :
      (o : Order) (p : Payload) (st : Store)
      → IsBook place (view st)
      → HasPlace place o
      → let r = exec (put_commands o) (publish o.market_id p st) in
        r.0 ≡ true → Written place o.id (some (details_of o)) (view st) (view r.1)
  put-Written o p st b h e =
      let st₁ = publish o.market_id p st in
      let (hs, ss) = executed (put_commands o) st₁ e in
      (
        IsBook-Agrees place (after_all (put_commands o) (view st₁))
            (view (exec (put_commands o) st₁).1) (hs, ss)
            (put-IsBook place (view st₁) o (published-IsBook o.market_id p st b) h),
        λ id. hs id ∙ rw ((redis.publish_agrees o.market_id p st).0 id) refl,
      )

  take-Written :
      (o : Order) (p : Payload) (st : Store)
      → IsBook place (view st)
      → HasPlace place o
      → let r = exec (take_commands o) (publish o.market_id p st) in
        r.0 ≡ true → Written place o.id none (view st) (view r.1)
  take-Written o p st b h e =
      let st₁ = publish o.market_id p st in
      let (hs, ss) = executed (take_commands o) st₁ e in
      (
        IsBook-Agrees place (after_all (take_commands o) (view st₁))
            (view (exec (take_commands o) st₁).1) (hs, ss)
            (take-IsBook place (view st₁) o (published-IsBook o.market_id p st b) h),
        λ id. hs id ∙ rw ((redis.publish_agrees o.market_id p st).0 id) refl,
      )

  pub update_order_in_redis-Written :
      (o : Order) (st : Store)
      → IsBook place (view st)
      → HasPlace place o
      → (update_order_in_redis server o st).0 ≡ true
      → Written place o.id (kept o) (view st) (view (update_order_in_redis server o st).1)
  unfolding update_order_in_redis
  update_order_in_redis-Written o st b h e = elim (Bool-cases (is_finished o)) [
    | inl k ↦ rw k (take-Written o (order_remove o.id o.market_id) st b h (rw k at e))
    | inr k ↦ rw k (
        put-Written o
          (order_update o.id o.market_id o.side o.price o.quantity o.filled_quantity o.status) st b
          h (rw k at e))
  ]

  pub insert_order_to_redis-Written :
      (o : Order) (st : Store)
      → IsBook place (view st)
      → HasPlace place o
      → (insert_order_to_redis server o st).0 ≡ true
      → Written place o.id
          (some (details_of o))
          (view st)
          (view (insert_order_to_redis server o st).1)
  unfolding insert_order_to_redis
  insert_order_to_redis-Written o st b h e =
      put-Written o
        (new_order o.id o.market_id o.side o.price o.quantity o.filled_quantity o.status) st b h e
