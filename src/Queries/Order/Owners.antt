-- ===== src/Queries/Order/Owners.antt =====
-- The users of the orders stay, whatever the statements of db/queries do.
use cex_go.Prelude.{
  refl, Bool, Bool-cases, ◌==◌, ◌&&◌, ◌≡◌, true, ap, List, [], ◌∷◌, ◌++◌, All-mono, All-append, inl,
  inr, arith,
}
use cex_go.Database.{OrderRow, UserRow}
use cex_go.Database.Table.{select, update, All-update, is_some-select-update}
use cex_go.Database.Statement.{exists}
use cex_go.Queries.Balance.{of_user}
use cex_go.Queries.Kept.{IsKept}
use cex_go.Queries.Order.Effects.{OwnersExist}

-- A user who is there is there among more users.
pub exists-append :
    {R : Type 0} (p : R → Bool) (rs qs : List R) → exists p rs ≡ true → exists p (rs ++ qs) ≡ true
unfolding select
exists-append p [] qs h = absurd (cc h)
exists-append p (r ∷ rs) qs h = elim (Bool-cases (p r)) [
  | inl e ↦ rw e refl
  | inr e ↦ rw e (exists-append p rs qs (rw e at h))
]

-- The user of an order is among `users`.
abbrev IsOwned : List UserRow → OrderRow → Type 0
IsOwned users r = exists (of_user r.user_id) users ≡ true

left_true : (a b : Bool) → (a && b) ≡ true → a ≡ true
left_true a b h = ground arith

pub OwnersExist-IsKept : IsKept OwnersExist
OwnersExist-IsKept = record {
  changes_user = λ db p f r found c same v.
      All-mono (IsOwned db.users) (IsOwned (update p f db.users)) db.orders
        (λ o h.
          rw
            (is_some-select-update p (of_user o.user_id) f db.users
              (λ q. ap (λ k. k == o.user_id) (same q)))
            h)
        v;
  changes_balance = λ _ _ _ _ _ _ v. v;
  adds_balance = λ _ _ _ v. v;
  changes_order =
      λ db p f same v. All-update (IsOwned db.users) p f db.orders (λ o h. rw (same o) h) v;
  adds_order = λ db r k v.
      All-append (IsOwned db.users) db.orders (r ∷ []) v
        (left_true (exists (of_user r.user_id) db.users) _ k, tt);
  stores_trades = λ _ _ v. v;
  stored = record {
    adds_user = λ db r c _ _ v.
        All-mono (IsOwned db.users) (IsOwned (db.users ++ (r ∷ []))) db.orders
          (λ o h. exists-append (of_user o.user_id) db.users (r ∷ []) h) v;
    stores_markets = λ _ _ v. v;
    stores_assets = λ _ _ v. v;
  };
}
