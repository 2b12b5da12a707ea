-- ===== src/Database/Listing/Sorting.antt =====
-- What WHERE, ORDER BY and LIMIT return: the rows that are wanted, all of them, in order.
use cex_go.Prelude.{
  ℕ, zero, suc, ◌≤◌, Bool, Bool-cases, inl, inr, List, [], ◌∷◌, ◌≡◌, true, false, refl, All, Mem,
  length, arith, All-mono,
}
use cex_go.Database.Listing.{select_all, insert_row, order_by, limit_to}

module _ {R : Type 0} where
  abbrev pub IsSorted : (R → R → Bool) → List R → Type 0
  IsSorted le [] = Unit
  IsSorted le (r ∷ rs) = All (λ q. le r q ≡ true) rs × IsSorted le rs

  abbrev pub IsPrefix : List R → List R → Type 0
  IsPrefix [] rs = Unit
  IsPrefix (q ∷ qs) [] = ⊥
  IsPrefix (q ∷ qs) (r ∷ rs) = (q ≡ r) × IsPrefix qs rs

  -- Of any two rows the one in front and the one behind it are related by `P`.
  abbrev pub IsPairwise : (R → R → Type 0) → List R → Type 0
  IsPairwise P [] = Unit
  IsPairwise P (r ∷ rs) = All (P r) rs × IsPairwise P rs

  pub IsSorted-IsPairwise :
      (le : R → R → Bool) (P : R → R → Type 0) (rs : List R)
      → ((a b : R) → le a b ≡ true → P a b)
      → IsSorted le rs
      → IsPairwise P rs
  IsSorted-IsPairwise le P [] h s = tt
  IsSorted-IsPairwise le P (r ∷ rs) h (a, s) =
      (All-mono (λ q. le r q ≡ true) (P r) rs (h r) a, IsSorted-IsPairwise le P rs h s)

  pub All-prefix : (P : R → Type 0) (qs rs : List R) → IsPrefix qs rs → All P rs → All P qs
  All-prefix P [] rs h a = tt
  All-prefix P (q ∷ qs) [] h a = absurd h
  All-prefix P (q ∷ qs) (r ∷ rs) (e, h) (x, a) = (rw e x, All-prefix P qs rs h a)

  pub IsSorted-prefix :
      (le : R → R → Bool) (qs rs : List R) → IsPrefix qs rs → IsSorted le rs → IsSorted le qs
  IsSorted-prefix le [] rs h a = tt
  IsSorted-prefix le (q ∷ qs) [] h a = absurd h
  IsSorted-prefix le (q ∷ qs) (r ∷ rs) (e, h) (x, a) =
      (rw e (All-prefix (λ y. le r y ≡ true) qs rs h x), IsSorted-prefix le qs rs h a)

  pub length-prefix : (qs rs : List R) → IsPrefix qs rs → length qs ≤ length rs
  length-prefix [] rs h = omega arith
  length-prefix (q ∷ qs) [] h = absurd h
  length-prefix (q ∷ qs) (r ∷ rs) (e, h) = omega (arith, length-prefix qs rs h)

  pub length-limit_to : (n : ℕ) (rs : List R) → length (limit_to n rs) ≤ n
  length-limit_to zero rs = omega arith
  length-limit_to (suc n) [] = omega arith
  length-limit_to (suc n) (r ∷ rs) = omega (arith, length-limit_to n rs)

  pub limit_to-IsPrefix : (n : ℕ) (rs : List R) → IsPrefix (limit_to n rs) rs
  limit_to-IsPrefix zero rs = tt
  limit_to-IsPrefix (suc n) [] = tt
  limit_to-IsPrefix (suc n) (r ∷ rs) = (refl, limit_to-IsPrefix n rs)

  pub All-select_all : (p : R → Bool) (rs : List R) → All (λ r. p r ≡ true) (select_all p rs)
  All-select_all p [] = tt
  All-select_all p (r ∷ rs) = elim (Bool-cases (p r)) [
    | inl e ↦ rw e (e, All-select_all p rs)
    | inr e ↦ rw e (All-select_all p rs)
  ]

  pub All-select_all_kept :
      (P : R → Type 0) (p : R → Bool) (rs : List R) → All P rs → All P (select_all p rs)
  All-select_all_kept P p [] a = tt
  All-select_all_kept P p (r ∷ rs) (x, a) = elim (Bool-cases (p r)) [
    | inl e ↦ rw e (x, All-select_all_kept P p rs a)
    | inr e ↦ rw e (All-select_all_kept P p rs a)
  ]

  pub Mem-select_all :
      (p : R → Bool) (r : R) (rs : List R) → Mem r rs → p r ≡ true → Mem r (select_all p rs)
  Mem-select_all p r [] m h = m
  Mem-select_all p r (q ∷ qs) (inl e) h = rw (← e, h) (inl refl)
  Mem-select_all p r (q ∷ qs) (inr m) h = elim (Bool-cases (p q)) [
    | inl e ↦ rw e (inr (Mem-select_all p r qs m h))
    | inr e ↦ rw e (Mem-select_all p r qs m h)
  ]

module _ {R : Type 0} (le : R → R → Bool) where
  All-insert_row :
      (P : R → Type 0) (r : R) (rs : List R) → P r → All P rs → All P (insert_row le r rs)
  All-insert_row P r [] x a = (x, tt)
  All-insert_row P r (q ∷ qs) x (y, a) = elim (Bool-cases (le r q)) [
    | inl e ↦ rw e (x, (y, a))
    | inr e ↦ rw e (y, All-insert_row P r qs x a)
  ]

  pub All-order_by : (P : R → Type 0) (rs : List R) → All P rs → All P (order_by le rs)
  All-order_by P [] a = tt
  All-order_by P (r ∷ rs) (x, a) = All-insert_row P r (order_by le rs) x (All-order_by P rs a)

  Mem-insert_row : (a r : R) (rs : List R) → Mem a (r ∷ rs) → Mem a (insert_row le r rs)
  Mem-insert_row a r [] m = m
  Mem-insert_row a r (q ∷ qs) m = elim (Bool-cases (le r q)) [
    | inl e ↦ rw e m
    | inr e ↦ rw e (elim m [
      | inl k ↦ inr (Mem-insert_row a r qs (inl k))
      | inr (inl k) ↦ inl k
      | inr (inr k) ↦ inr (Mem-insert_row a r qs (inr k))
    ])
  ]

  pub Mem-order_by : (a : R) (rs : List R) → Mem a rs → Mem a (order_by le rs)
  Mem-order_by a [] m = m
  Mem-order_by a (r ∷ rs) (inl e) = Mem-insert_row a r (order_by le rs) (inl e)
  Mem-order_by a (r ∷ rs) (inr m) = Mem-insert_row a r (order_by le rs) (inr (Mem-order_by a rs m))

  module _ (total : (r q : R) → le r q ≡ false → le q r ≡ true)
      (trans : (a b c : R) → le a b ≡ true → le b c ≡ true → le a c ≡ true) where
    insert_row-IsSorted : (r : R) (rs : List R) → IsSorted le rs → IsSorted le (insert_row le r rs)
    insert_row-IsSorted r [] s = (tt, tt)
    insert_row-IsSorted r (q ∷ qs) (a, s) = elim (Bool-cases (le r q)) [
      | inl e ↦ rw e (
        (e, All-mono (λ x. le q x ≡ true) (λ x. le r x ≡ true) qs (λ x h. trans r q x e h) a),
        (a, s),
      )
      | inr e ↦
          rw e
            (All-insert_row (λ x. le q x ≡ true) r qs (total r q e) a, insert_row-IsSorted r qs s)
    ]

    pub order_by-IsSorted : (rs : List R) → IsSorted le (order_by le rs)
    order_by-IsSorted [] = tt
    order_by-IsSorted (r ∷ rs) = insert_row-IsSorted r (order_by le rs) (order_by-IsSorted rs)
