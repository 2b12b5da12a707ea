-- ===== src/Matching/Moves.antt =====
-- Steps of a settlement that move money, one after the other, and the trades that they settle.
use cex_go.Prelude.{
  ap, sym, ◌∙◌, String, ◌≡◌, true, Bool-cases, List, [], ◌∷◌, inl, inr, arith, str_eq, All,
}
use cex_go.Prelude.Int.{ℤ, pos, ◌+ℤ◌, ◌≤ℤ◌, ◌<ℤ◌, int_laws, +ℤ_parts}
use cex_go.Float.{Float64, IsNumeric, IsWhole, fine, fine_zero, fine_add, fine_nonneg, column}
use cex_go.Models.{Trade}
use cex_go.Database.{Db, Session, Tx, ◌>>=◌, Result}
use cex_go.Database.Statement.{exists}
use cex_go.Database.Ensures.{Ensures, Ensures-mono, Ensures-bind}
use cex_go.Queries.Balance.{of_user}
use cex_go.Queries.Balance.Totals.{Moved, Moved-trans, share, positive, KeepsUsers}
use cex_go.Matching.Settle.{cost, paid}

-- The units of all trades
abbrev pub units : List Trade → ℤ
units [] = pos 0
units (t ∷ ts) = t.quantity +ℤ units ts

-- The cost before any column rounds it, and what is paid for each trade
abbrev pub costs : ⦃f : Float64⦄ → List Trade → ℤ
costs [] = pos 0
costs (t ∷ ts) = cost t +ℤ costs ts

abbrev pub payments : ⦃f : Float64⦄ → List Trade → ℤ
payments [] = pos 0
payments (t ∷ ts) = paid t +ℤ payments ts

pub share_add : (a b : String) (x y : ℤ) → share a b x +ℤ share a b y ≡ share a b (x +ℤ y)
share_add a b x y = elim (Bool-cases (str_eq b a)) [ inl h ↦ rw h | inr h ↦ rw h (omega int_laws) ]

pub positive_lem : (x : ℤ) → pos 0 ≤ℤ x → positive x ≡ x
positive_lem x h = ground arith

-- A recorded trade in `base`, whose users are there, and whose cost eight decimals hold.
abbrev pub IsSound : ⦃f : Float64⦄ → String → Db → Trade → Type 0
IsSound base db t =
    (pos 0 <ℤ t.quantity)
    × (pos 0 <ℤ t.price)
    × (t.base_asset ≡ base)
    × (exists (of_user t.buy_order.user_id) db.users ≡ true)
    × (exists (of_user t.sell_order.user_id) db.users ≡ true)
    × IsWhole (cost t)

module _ (a : String) where
  -- Two steps that move money, one after the other.
  pub Moved-bind :
      {A B : Type 0} (d e d' e' : ℤ) (m : Tx A) (f : A → Tx B) (s : Session)
      → Ensures (λ _ db. Moved a d e s.db db) (m s)
      → ((x : A) (s' : Session)
          → Moved a d e s.db s'.db
          → Ensures (λ _ db. Moved a d' e' s'.db db) (f x s'))
      → Ensures (λ _ db. Moved a (d +ℤ d') (e +ℤ e') s.db db) ((m >>= f) s)
  Moved-bind d e d' e' m f s p h =
      Ensures-bind (λ _ db. Moved a d e s.db db) (λ _ db. Moved a (d +ℤ d') (e +ℤ e') s.db db) m f s
        p
        λ x s' k.
          Ensures-mono (λ _ db. Moved a d' e' s'.db db)
            (λ _ db. Moved a (d +ℤ d') (e +ℤ e') s.db db) (f x s') (h x s' k)
            λ _ db k'. Moved-trans a d e d' e' s.db s'.db db k k'

  pub Moved-eq :
      {A : Type 0} (d e d' e' : ℤ) (s : Session) (r : Result A × Session)
      → d ≡ d'
      → e ≡ e'
      → Ensures (λ _ db. Moved a d e s.db db) r
      → Ensures (λ _ db. Moved a d' e' s.db db) r
  Moved-eq d e d' e' s r p q h = rw (← p, ← q) h

  pub Moved-as : (d e d' e' : ℤ) (x y : Db) → d ≡ d' → e ≡ e' → Moved a d e x y → Moved a d' e' x y
  Moved-as d e d' e' x y p q h = rw (← p, ← q) h

  -- Two steps that leave the totals as they are.
  pub Moved-then :
      {A B : Type 0} (m : Tx A) (f : A → Tx B) (s : Session)
      → Ensures (λ _ db. Moved a (pos 0) (pos 0) s.db db) (m s)
      → ((x : A) (s' : Session)
          → Moved a (pos 0) (pos 0) s.db s'.db
          → Ensures (λ _ db. Moved a (pos 0) (pos 0) s'.db db) (f x s'))
      → Ensures (λ _ db. Moved a (pos 0) (pos 0) s.db db) ((m >>= f) s)
  Moved-then m f s p h =
      Moved-eq (pos 0 +ℤ pos 0) (pos 0 +ℤ pos 0) (pos 0) (pos 0) s ((m >>= f) s) (omega int_laws)
        (omega int_laws) (Moved-bind (pos 0) (pos 0) (pos 0) (pos 0) m f s p h)

pub IsSound-kept :
    ⦃f : Float64⦄ (base : String) (ts : List Trade) (x y : Db)
    → KeepsUsers x y
    → All (IsSound base x) ts
    → All (IsSound base y) ts
IsSound-kept base [] x y k h = tt
IsSound-kept base (t ∷ ts) x y k ((q, p, b, u, v, w), h) =
    ((q, p, b, k t.buy_order.user_id u, k t.sell_order.user_id v, w), IsSound-kept base ts x y k h)

module _ ⦃f : Float64⦄ (base : String) (db : Db) where
  pub units_nonneg : (ts : List Trade) → All (IsSound base db) ts → pos 0 ≤ℤ units ts
  units_nonneg [] h = omega arith
  units_nonneg (t ∷ ts) (v, h) =
      omega (int_laws, units_nonneg ts h, +ℤ_parts t.quantity (units ts), v.0)

  module _ (numeric : IsNumeric f) where
    -- No column rounds the cost of a trade.
    paid-fine : (t : Trade) → IsSound base db t → cost t ≡ fine (paid t)
    paid-fine t (_, _, _, _, _, (n, e)) = e ∙ ap fine (sym (ap column e ∙ numeric.whole n))

    pub paid_nonneg : (t : Trade) → IsSound base db t → pos 0 ≤ℤ paid t
    paid_nonneg t v =
        let cost_nonneg : pos 0 ≤ℤ cost t =
          numeric.sign t.price t.quantity (omega (arith, v.1)) (omega (arith, v.0)) in
        fine_nonneg (paid t) (rw (paid-fine t v) at cost_nonneg)

    payments_nonneg : (ts : List Trade) → All (IsSound base db) ts → pos 0 ≤ℤ payments ts
    payments_nonneg [] h = omega arith
    payments_nonneg (t ∷ ts) (v, h) =
        omega (int_laws, payments_nonneg ts h, paid_nonneg t v, +ℤ_parts (paid t) (payments ts))

    costs-fine : (ts : List Trade) → All (IsSound base db) ts → costs ts ≡ fine (payments ts)
    costs-fine [] h = sym fine_zero
    costs-fine (t ∷ ts) (v, h) =
        ap (λ x. x +ℤ costs ts) (paid-fine t v)
        ∙ ap (λ y. fine (paid t) +ℤ y) (costs-fine ts h)
        ∙ fine_add (paid t) (payments ts)

    -- What a column makes of the whole sum
    pub column-costs :
        (ts : List Trade) (sum : ℤ)
        → All (IsSound base db) ts
        → sum ≡ costs ts
        → (column sum ≡ payments ts) × (pos 0 ≤ℤ column sum)
    column-costs ts sum h e =
        let same : column sum ≡ payments ts =
          ap column (e ∙ costs-fine ts h) ∙ numeric.whole (payments ts) in
        (same, rw same (payments_nonneg ts h))
