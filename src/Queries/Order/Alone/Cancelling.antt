-- ===== src/Queries/Order/Alone/Cancelling.antt =====
-- `CancelOrder` of db/queries/order.go.
use cex_go.Prelude.{
  sym, ap, ◌∙◌, ℕ, Bool, Bool-cases, inl, inr, List, [], ◌∷◌, ◌≡◌, ◌≢◌, true, false, refl, All,
  arith, none, some, ◌==◌, Option, not,
}
use cex_go.Models.{cancelled}
use cex_go.Database.{
  Db, OrderRow, Session, Result, ok, err, no_rows, ◌>>◌, pure, fail_if, round_trip, order_check,
}
use cex_go.Database.Table.{select, update, is_some}
use cex_go.Database.Statement.{store, exec_affected}
use cex_go.Database.Ensures.{Ensures, Ensures-bind, round_trip-Ensures, IsUpdated, store-Ensures}
use mathlib.Core.Path.{subst}
use cex_go.Queries.Order.{put_orders, set_status}
use cex_go.Queries.Order.Alone.{cancel_order, is_open_of}

-- PRIMARY KEY (id)
abbrev pub IsKeyed : List OrderRow → Type 0
IsKeyed [] = Unit
IsKeyed (r ∷ rs) = All (λ q. (q.id == r.id) ≡ false) rs × IsKeyed rs

select_open-none :
    (id user : ℕ) (x : OrderRow) (rs : List OrderRow)
    → (x.id == id) ≡ true
    → All (λ q. (q.id == x.id) ≡ false) rs
    → select (is_open_of id user) rs ≡ none
unfolding select
select_open-none id user x [] e h = refl
select_open-none id user x (r ∷ rs) e (h, hs) = ground (arith, select_open-none id user x rs e hs)

cancelled-none :
    (id user other : ℕ) (r : OrderRow) (rs : List OrderRow)
    → IsKeyed rs
    → select (is_open_of id user) rs ≡ some r
    → select (is_open_of id other) (update (is_open_of id user) (set_status cancelled) rs) ≡ none
unfolding select update
cancelled-none id user other r [] k e = refl
cancelled-none id user other r (x ∷ rs) (h, k) e = elim (Bool-cases (x.id == id)) [
  | inl i ↦ ground (arith, i, select_open-none id user x rs i h, select_open-none id other x rs i h)
  | inr i ↦ ground (arith, i, cancelled-none id user other r rs k)
]

-- The row that is cancelled, and the table behind it
abbrev IsCancelled : ℕ → ℕ → Db → Db → Type 0
IsCancelled id user before db =
    (r : OrderRow) × (select (is_open_of id user) before.orders ≡ some r)
    × (db ≡ put_orders before (update (is_open_of id user) (set_status cancelled) before.orders))

abbrev IsAffected : ℕ → ℕ → Db → Bool → Db → Type 0
IsAffected id user before found db = (found ≡ true) → IsCancelled id user before db

abbrev orders : Db → List OrderRow
orders db = db.orders

abbrev mark : OrderRow → OrderRow
mark = set_status cancelled

updated-IsCancelled :
    (id user : ℕ) (before db : Db) (r : OrderRow)
    → select (is_open_of id user) before.orders ≡ some r
    → IsUpdated orders put_orders (is_open_of id user) mark order_check before db
    → IsCancelled id user before db
updated-IsCancelled id user before db r e (inl (n, _)) = cc
updated-IsCancelled id user before db r e (inr (q, n, c, d)) = (q, n, d)

store-IsAffected :
    (id user : ℕ) (o : Option OrderRow) (s : Session)
    → select (is_open_of id user) s.db.orders ≡ o
    → Ensures
        (IsAffected id user s.db)
        ((store orders put_orders (is_open_of id user) mark order_check o >> pure (is_some o)) s)
store-IsAffected id user none s e = λ h. absurd (cc h)
store-IsAffected id user (some r) s e =
    Ensures-bind (λ _ db. IsUpdated orders put_orders (is_open_of id user) mark order_check s.db db)
      (IsAffected id user s.db)
      (store orders put_orders (is_open_of id user) mark order_check (some r)) (λ _. pure true) s
      (store-Ensures orders put_orders (is_open_of id user) mark order_check (some r) s e)
      λ _ s' u h. updated-IsCancelled id user s.db s'.db r e u

fail_unless-found :
    (id user : ℕ) (before : Db) (found : Bool) (s : Session)
    → IsAffected id user before found s.db
    → Ensures (λ _ db. IsCancelled id user before db) (fail_if (not found) no_rows s)
fail_unless-found id user before true s h = h refl
fail_unless-found id user before false s h = tt

pub cancel_order-Ensures :
    (id user : ℕ) (s : Session)
    → Ensures (λ _ db. IsCancelled id user s.db db) (cancel_order id user s)
unfolding cancel_order exec_affected
cancel_order-Ensures id user s =
    Ensures-bind (IsAffected id user s.db) (λ _ db. IsCancelled id user s.db db)
      (exec_affected orders put_orders (is_open_of id user) mark order_check)
      (λ found. fail_if (not found) no_rows) s
      (Ensures-bind (λ _ db. db ≡ s.db) (IsAffected id user s.db) round_trip
        (λ _ s'.
          (store orders put_orders (is_open_of id user) mark order_check
                (select (is_open_of id user) s'.db.orders)
              >> pure (is_some (select (is_open_of id user) s'.db.orders)))
            s')
        s (round_trip-Ensures s) λ _ s' e. rw (← e) (store-IsAffected id user _ s' refl))
      λ found s' h. fail_unless-found id user s.db found s' h

ok-Ensures :
    (Q : Db → Type 0) (m : Result (Unit {0}) × Session)
    → Ensures (λ _ db. Q db) m
    → m.0 ≡ ok tt
    → Q m.1.db
ok-Ensures Q (ok a, s) q e = q
ok-Ensures Q (err x, s) q e = absurd (cc e)

-- In a table where no two orders have the same id, an order that `CancelOrder` of the queries has
-- cancelled is cancelled for good: a second call for the same order, by the same or another user,
-- does not succeed.
pub cancel_order-once :
    (id user other : ℕ) (s s' after : Session)
    → IsKeyed s.db.orders
    → cancel_order id user s ≡ (ok tt, s')
    → after.db ≡ s'.db
    → (cancel_order id other after).0 ≢ ok tt
cancel_order-once id user other s s' after k e d h =
    let first =
      subst (Ensures (λ _ db. IsCancelled id user s.db db)) e (cancel_order-Ensures id user s) in
    let again =
      ok-Ensures (IsCancelled id other after.db) (cancel_order id other after)
        (cancel_order-Ensures id other after) h in
    let none_left = cancelled-none id user other first.0 s.db.orders k first.1 in
    let table : after.db.orders ≡ update (is_open_of id user) mark s.db.orders =
      ap (λ x. x.orders) (d ∙ first.2) in
    absurd (cc (sym again.1 ∙ ap (select (is_open_of id other)) table ∙ none_left))
