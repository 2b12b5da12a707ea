-- ===== src/Auth/Header.antt =====
-- `strings.Split(header, " ")[1]`: what stands behind the first space of a header, up to the next.
use Prim.Native.Char.{Char, code}
use Prim.Native.String.{String, [], ◌∷◌}
use cex_go.Prelude.{
  Bool, ◌==◌, ◌≡◌, true, false, Option, none, some, if◌then◌else◌, refl, ap, arith, str_eq, eq_iff,
  Bool-cases, inl, inr,
}

abbrev pub is_space : Char → Bool
is_space c = code c == b' '

unfoldable pub up_to_space : String → String
up_to_space [] = []
up_to_space (c ∷ s) = let rest = up_to_space s in if is_space c then [] else c ∷ rest

unfoldable pub behind_space : String → Option String
behind_space [] = none
behind_space (c ∷ s) = let rest = behind_space s in if is_space c then some s else rest

abbrev pub first_word : Option String → Option String
first_word none = none
first_word (some s) = some (up_to_space s)

-- There is no second part where the header has no space, and the index is out of range.
unfoldable pub second_part : String → Option String
unfolding up_to_space behind_space
second_part header = first_word (behind_space header)

abbrev pub has_space : String → Bool
has_space [] = false
has_space (c ∷ s) = if is_space c then true else has_space s

up_to_space-whole : (s : String) → has_space s ≡ false → up_to_space s ≡ s
unfolding up_to_space
up_to_space-whole [] h = refl
up_to_space-whole (c ∷ s) h = ground (arith, up_to_space-whole s)

-- `"Bearer " + token`, as a client sends it
abbrev pub bearer : String → String
bearer token = "B" ∷ "e" ∷ "a" ∷ "r" ∷ "e" ∷ "r" ∷ " " ∷ token

pub second_part-bearer :
    (token : String) → has_space token ≡ false → second_part (bearer token) ≡ some token
unfolding second_part behind_space
second_part-bearer token h = ap some (up_to_space-whole token h)

pub bearer-nonempty : (token : String) → str_eq (bearer token) "" ≡ false
bearer-nonempty token = elim (Bool-cases (str_eq (bearer token) "")) [
  | inl e ↦ absurd (cc ((eq_iff (bearer token) "").0 e))
  | inr e ↦ e
]
