-- ===== src/Database/Table.antt =====
-- Rows of a table. A WHERE clause of the code that names a primary key picks at most one row, so a
-- SELECT is the first row that matches and an UPDATE changes that row.
use mathlib.Core.Path.{subst}
use mathlib.Core.Option.{some-injective}
use cex_go.Prelude.{
  All, Bool-cases, inl, inr, ◌≡◌, refl, Bool, true, false, Option, none, some, List, [], ◌∷◌,
  if◌then◌else◌, arith, ◌++◌,
}
use cex_go.Prelude.Int.{ℤ, pos, ◌+ℤ◌, int_laws}

abbrev pub is_some : {A : Type 0} → Option A → Bool
is_some none = false
is_some (some _) = true

module _ {R : Type 0} where
  unfoldable pub select : (R → Bool) → List R → Option R
  select p [] = none
  select p (r ∷ rs) = if p r then some r else select p rs

  unfoldable pub update : (R → Bool) → (R → R) → List R → List R
  update p f [] = []
  update p f (r ∷ rs) = if p r then f r ∷ rs else r ∷ update p f rs

  abbrev pub total : (R → ℤ) → List R → ℤ
  total w [] = pos 0
  total w (r ∷ rs) = w r +ℤ total w rs

  pub select-holds : (p : R → Bool) (rs : List R) (r : R) → select p rs ≡ some r → p r ≡ true
  unfolding select
  select-holds p [] r e = ground arith
  select-holds p (x ∷ rs) r e = ground (arith, select-holds p rs r)

  -- An update moves a column total by what it moves in the row that it changes.
  pub total-update :
      (w : R → ℤ) (p : R → Bool) (f : R → R) (rs : List R) (r : R)
      → select p rs ≡ some r
      → total w (update p f rs) +ℤ w r ≡ total w rs +ℤ w (f r)
  unfolding select update
  total-update w p f [] r e = ground arith
  total-update w p f (x ∷ rs) r e = grind (int_laws, total-update w p f rs r)

  pub total-append : (w : R → ℤ) (rs qs : List R) → total w (rs ++ qs) ≡ total w rs +ℤ total w qs
  total-append w [] qs = omega int_laws
  total-append w (r ∷ rs) qs = rw (total-append w rs qs) (omega int_laws)

  -- A read of the row that was updated, by a clause that the update does not change.
  pub select-update_self :
      (p : R → Bool) (f : R → R) (rs : List R) (r : R)
      → select p rs ≡ some r
      → p (f r) ≡ true
      → select p (update p f rs) ≡ some (f r)
  unfolding select update
  select-update_self p f [] r e h = ground arith
  select-update_self p f (x ∷ rs) r e h = ground (arith, select-update_self p f rs r)

  -- A read of another row.
  pub select-update_other :
      (p q : R → Bool) (f : R → R) (rs : List R)
      → ((r : R) → p r ≡ true → (q r ≡ false) × (q (f r) ≡ false))
      → select q (update p f rs) ≡ select q rs
  unfolding select update
  select-update_other p q f [] h = refl
  select-update_other p q f (x ∷ rs) h = ground (arith, h x, select-update_other p q f rs h)

  -- An update that does not change what `q` tests finds a row by `q` just where there was one.
  pub is_some-select-update :
      (p q : R → Bool) (f : R → R) (rs : List R)
      → ((r : R) → q (f r) ≡ q r)
      → is_some (select q (update p f rs)) ≡ is_some (select q rs)
  unfolding select update
  is_some-select-update p q f [] h = refl
  is_some-select-update p q f (x ∷ rs) h = ground (arith, h x, is_some-select-update p q f rs h)

  -- What all rows have, the selected row has.
  pub All-select :
      (P : R → Type 0) (p : R → Bool) (rs : List R) (r : R) → All P rs → select p rs ≡ some r → P r
  unfolding select
  All-select P p [] r h e = absurd (cc e)
  All-select P p (x ∷ rs) r h e = elim (Bool-cases (p x)) [
    | inl k ↦ subst P (some-injective x r (rw (k, select) at e)) h.0
    | inr k ↦ All-select P p rs r h.1 (rw (k, select) at e)
  ]

  pub All-update :
      (P : R → Type 0) (p : R → Bool) (f : R → R) (rs : List R)
      → ((r : R) → P r → P (f r))
      → All P rs
      → All P (update p f rs)
  unfolding update
  All-update P p f [] k h = tt
  All-update P p f (x ∷ rs) k h = elim (Bool-cases (p x)) [
    | inl e ↦ rw (e, update) (k x h.0, h.1)
    | inr e ↦ rw (e, update) (h.0, All-update P p f rs k h.1)
  ]

-- The same, where only the row that is found need become one that has it.
pub All-update_one :
    {R : Type 0} (P : R → Type 0) (p : R → Bool) (f : R → R) (rs : List R) (r : R)
    → select p rs ≡ some r
    → P (f r)
    → All P rs
    → All P (update p f rs)
unfolding select update
All-update_one P p f [] r e h k = tt
All-update_one P p f (x ∷ rs) r e h k = elim (Bool-cases (p x)) [
  | inl q ↦
      let same : x ≡ r = some-injective x r (rw (q, select) at e) in rw (q, update) (rw same h, k.1)
  | inr q ↦ rw (q, update) (k.0, All-update_one P p f rs r (rw (q, select) at e) h k.1)
]

-- An update that undoes another one.
pub update-update_back :
    {R : Type 0} (p : R → Bool) (f g : R → R) (rs : List R) (r : R)
    → select p rs ≡ some r
    → p (f r) ≡ true
    → g (f r) ≡ r
    → update p g (update p f rs) ≡ rs
unfolding select update
update-update_back p f g [] r e h k = refl
update-update_back p f g (x ∷ rs) r e h k = elim (Bool-cases (p x)) [
  | inl q ↦
      let same : x ≡ r = some-injective x r (rw (q, select) at e) in rw (q, update, same, h, k) refl
  | inr q ↦ rw (q, update, q, update, update-update_back p f g rs r (rw (q, select) at e) h k) refl
]
