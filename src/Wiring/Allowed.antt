-- ===== src/Wiring/Allowed.antt =====
-- Which origins `AllowOriginFunc` of cmd/main.go lets in.
use Prim.Native.String.{String, [], ◌∷◌, ◌++◌}
use text.Mathlib.TextEquality.{codes_equal}
use text.Mathlib.TextLemmas.{nil-append, cons-append}
use cex_go.Prelude.{
  Bool-cases, true, ◌||◌, ◌≡◌, ◌⊎◌, ◌↔◌, inl, inr, refl, ap, sym, ◌∙◌, str_eq, eq_iff, arith,
}
use cex_go.Wiring.Origin.{has_prefix, has_suffix, allow_origin}

has_prefix-append : (s p : String) → has_prefix s p ≡ true → (r : String) × (s ≡ p ++ r)
unfolding has_prefix
has_prefix-append s [] h = (s, sym (nil-append s))
has_prefix-append [] (d ∷ p) h = absurd (cc h)
has_prefix-append (c ∷ s) (d ∷ p) h =
    let (r, e) = has_prefix-append s p (ground (arith, h)) in
    let same : c ≡ d = codes_equal c d (ground (arith, h)) in
    (r, ap (λ x. x ∷ s) same ∙ ap (λ t. d ∷ t) e ∙ sym (cons-append d p r))

has_suffix-append : (s p : String) → has_suffix s p ≡ true → (r : String) × (s ≡ r ++ p)
unfolding has_suffix
has_suffix-append [] p h = ([], (eq_iff [] p).0 h ∙ sym (nil-append p))
has_suffix-append (c ∷ s) p h = elim (Bool-cases (str_eq (c ∷ s) p)) [
  | inl e ↦ ([], (eq_iff (c ∷ s) p).0 e ∙ sym (nil-append p))
  | inr e ↦
      let (r, k) = has_suffix-append s p (rw e at h) in
      (c ∷ r, ap (λ t. c ∷ t) k ∙ sym (cons-append c r p))
]

has_prefix_self : (p r : String) → has_prefix (p ++ r) p ≡ true
unfolding has_prefix
has_prefix_self [] r = refl
has_prefix_self (d ∷ p) r = rw (cons-append d p r) (ground (arith, has_prefix_self p r))

has_suffix_self : (r p : String) → has_suffix (r ++ p) p ≡ true
unfolding has_suffix
has_suffix_self [] p = rw (nil-append p) (whole p)
  where
    whole : (t : String) → has_suffix t t ≡ true
    whole [] = refl
    whole (c ∷ t) = ground (arith, (eq_iff (c ∷ t) (c ∷ t)).1 refl)
has_suffix_self (c ∷ r) p = rw (cons-append c r p) (ground (arith, has_suffix_self r p))

-- An origin of the site's hosts: https:// in front and .lovable.app at the end
abbrev pub IsHosted : String → Type 0
IsHosted origin =
    ((r : String) × (origin ≡ "https://" ++ r)) × ((r : String) × (origin ≡ r ++ ".lovable.app"))

abbrev pub IsLocal : String → Type 0
IsLocal origin = (origin ≡ "http://localhost:8080") ⊎ (origin ≡ "http://localhost:5173")

hosted_suffix :
    (origin : String)
    → (str_eq origin "https://blink-trade-hub.lovable.app" || has_suffix origin ".lovable.app")
      ≡ true
    → has_suffix origin ".lovable.app" ≡ true
hosted_suffix origin h = elim (Bool-cases (str_eq origin "https://blink-trade-hub.lovable.app")) [
  | inr e ↦ rw e at h
  | inl e ↦
      rw ((eq_iff origin "https://blink-trade-hub.lovable.app").0 e)
        (has_suffix_self "https://blink-trade-hub" ".lovable.app")
]

allow_origin_sound :
    (origin : String)
    → allow_origin origin ≡ true
    → (origin ≡ "") ⊎ (IsLocal origin ⊎ IsHosted origin)
unfolding allow_origin
allow_origin_sound origin h = elim (Bool-cases (str_eq origin "")) [
  | inl e ↦ inl ((eq_iff origin "").0 e)
  | inr a ↦ elim (Bool-cases (str_eq origin "http://localhost:8080")) [
    | inl e ↦ inr (inl (inl ((eq_iff origin "http://localhost:8080").0 e)))
    | inr b ↦ elim (Bool-cases (str_eq origin "http://localhost:5173")) [
      | inl e ↦ inr (inl (inr ((eq_iff origin "http://localhost:5173").0 e)))
      | inr c ↦ inr (
          inr (
            has_prefix-append origin "https://" (ground (arith, h, a, b, c)),
            has_suffix-append origin ".lovable.app"
                (hosted_suffix origin (ground (arith, h, a, b, c))),
          ))
    ]
  ]
]

allow_origin_complete :
    (origin : String)
    → (origin ≡ "") ⊎ (IsLocal origin ⊎ IsHosted origin)
    → allow_origin origin ≡ true
unfolding allow_origin
allow_origin_complete origin (inl e) = rw e refl
allow_origin_complete origin (inr (inl (inl e))) = rw e refl
allow_origin_complete origin (inr (inl (inr e))) = rw e refl
allow_origin_complete origin (inr (inr ((r, e), (q, k)))) =
    let starts : has_prefix origin "https://" ≡ true = rw e (has_prefix_self "https://" r) in
    let ends : has_suffix origin ".lovable.app" ≡ true = rw k (has_suffix_self q ".lovable.app") in
    ground (arith, starts, ends)

-- `AllowOriginFunc` lets in exactly the empty origin, http on the ports 8080 and 5173 of localhost, and
-- what starts with https:// and ends with .lovable.app.
pub allow_origin_lem :
    (origin : String)
    → (allow_origin origin ≡ true) ↔ ((origin ≡ "") ⊎ (IsLocal origin ⊎ IsHosted origin))
allow_origin_lem origin = (allow_origin_sound origin, allow_origin_complete origin)
