-- ===== src/Float.antt =====
-- Go's float64, as far as the program multiplies, divides and tests for equality: amounts are integers
-- that count 10^-8, on which sums, differences and comparisons are exact. The rest stays open.
use cex_go.Prelude.{ap, sym, ◌∙◌, refl, Bool, true, ◌≡◌, ◌^◌, arith, ◌+◌, ◌*◌, ℕ}
use cex_go.Prelude.Int.{ℤ, pos, pos_part, neg_part, ◌≤ℤ◌, ◌*ℤ◌, ◌+ℤ◌, int_laws}

-- `mul` and `div` give amounts that stay in memory. `product` is a product that goes on to the database,
-- and counts 10^-16; `column` is what a NUMERIC(28,8) column makes of such a number, in 10^-8. `equal` is
-- `==` between two sums, which may be off by the last digit.
pub record Float64 : Type 0 where
  pub mul : ℤ → ℤ → ℤ
  pub div : ℤ → ℤ → ℤ
  pub product : ℤ → ℤ → ℤ
  pub column : ℤ → ℤ
  pub equal : ℤ → ℤ → Bool

abbrev pub mul : ⦃f : Float64⦄ → ℤ → ℤ → ℤ
mul ⦃f⦄ = f.mul

abbrev pub div : ⦃f : Float64⦄ → ℤ → ℤ → ℤ
div ⦃f⦄ = f.div

abbrev pub product : ⦃f : Float64⦄ → ℤ → ℤ → ℤ
product ⦃f⦄ = f.product

abbrev pub column : ⦃f : Float64⦄ → ℤ → ℤ
column ⦃f⦄ = f.column

abbrev pub equal : ⦃f : Float64⦄ → ℤ → ℤ → Bool
equal ⦃f⦄ = f.equal

-- An amount, as a number of 10^-16
abbrev pub fine : ℤ → ℤ
fine n = n *ℤ pos (10 ^ 8)

-- A number that eight decimals hold, so that no column rounds it
abbrev pub IsWhole : ℤ → Type 0
IsWhole x = (n : ℤ) × (x ≡ fine n)

-- A product of factors that are not negative is not negative, and a column holds eight decimals.
pub record IsNumeric (f : Float64) : Type 0 where
  pub sign : (a b : ℤ) → pos 0 ≤ℤ a → pos 0 ≤ℤ b → pos 0 ≤ℤ f.product a b
  pub whole : (n : ℤ) → f.column (fine n) ≡ n

-- Of amounts up to `most` those that are equal as float64 are equal. (Equal sums may differ as float64, by
-- the last digit, and amounts that are too large for eight decimals may not.)
abbrev pub Separates : ℕ → Float64 → Type 0
Separates most f = (a b : ℤ) → a ≤ℤ pos most → pos 0 ≤ℤ b → f.equal a b ≡ true → a ≡ b

pub fine_parts :
    (a : ℤ) → pos_part (fine a) + neg_part a * 10 ^ 8 ≡ neg_part (fine a) + pos_part a * 10 ^ 8
unfolding ◌*ℤ◌
fine_parts a = ground arith

pub fine_zero : fine (pos 0) ≡ pos 0
unfolding ◌*ℤ◌
fine_zero = refl

pub fine_add : (a b : ℤ) → fine a +ℤ fine b ≡ fine (a +ℤ b)
fine_add a b = omega (int_laws, fine_parts a, fine_parts b, fine_parts (a +ℤ b))

pub fine_nonneg : (a : ℤ) → pos 0 ≤ℤ fine a → pos 0 ≤ℤ a
fine_nonneg a h = omega (int_laws, fine_parts a, h)

pub column_zero : ⦃f : Float64⦄ → IsNumeric f → column (pos 0) ≡ pos 0
column_zero numeric = ap column (sym fine_zero) ∙ numeric.whole (pos 0)
