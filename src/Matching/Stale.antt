-- ===== src/Matching/Stale.antt =====
-- What the loop of `MatchLimitOrders` does at a level that Redis keeps showing: fills are written to
-- Redis only after the whole match, so every read within one match finds the level as it was before.
use cex_go.Prelude.{ℕ, zero, suc, ◌≡◌, refl, String, true, some, replicate, arith, ◌∙◌, [], ◌∷◌}
use cex_go.Prelude.Int.{ℤ, pos, ◌≤ℤ◌, ◌<ℤ◌, ◌+ℤ◌, int_laws, min_ℤ, ◌-ℤ◌, ltb_ℤ}
use cex_go.Float.{Float64}
use cex_go.Models.{Order}
use cex_go.Redis.{Server}
use cex_go.Matching.Fill.{remaining, fill_against_level}
use cex_go.Matching.Loop.{OrderResult, add_fill, match_while}
use cex_go.Matching.Engine.{limit_level, is_unfilled, empty_result, match_limit_orders}
use cex_go.Matching.Moves.{units}
use cex_go.Matching.Limits.{units-append}

-- n times an amount
abbrev pub times : ℕ → ℤ → ℤ
times zero r = pos 0
times (suc n) r = r +ℤ times n r

min_right : (a b : ℤ) → b ≤ℤ a → min_ℤ a b ≡ b
unfolding min_ℤ
min_right a b h = ground arith

times_nonneg : (n : ℕ) (r : ℤ) → pos 0 <ℤ r → pos 0 ≤ℤ times n r
times_nonneg zero r h = omega arith
times_nonneg (suc n) r h = omega (int_laws, times_nonneg n r h)

room :
    (filled quantity r t : ℤ)
    → pos 0 <ℤ r
    → pos 0 ≤ℤ t
    → r +ℤ t ≤ℤ quantity -ℤ filled
    → ltb_ℤ filled quantity ≡ true
room filled quantity r t h k l =
    let lt : filled <ℤ quantity = omega (int_laws, h, k, l) in ground arith

module _ (server : Server) where
  open server use {Store}

  match_while-repeats :
      (base quote : String) (o : Order) (result : OrderResult) (st : Store) (now : ℤ)
      (level : Order) (n : ℕ)
      → ((q : ℤ) → limit_level server (record o { filled_quantity = q }) st ≡ some level)
      → pos 0 <ℤ remaining level
      → times n (remaining level) ≤ℤ remaining o
      → units
          (match_while is_unfilled
            (limit_level server)
            (fill_against_level base quote)
            o
            result
            (replicate n (record { store = st; now = now }))).trades
        ≡ units result.trades +ℤ times n (remaining level)
  unfolding match_while fill_against_level
  match_while-repeats base quote o result st now level zero next open_left fits = omega int_laws
  match_while-repeats base quote o result st now level (suc n) next open_left fits =
      let r = remaining level in
      let f = fill_against_level base quote now o level in
      let go : is_unfilled o ≡ true =
        room o.filled_quantity o.quantity r (times n r) open_left (times_nonneg n r open_left)
          fits in
      let whole_level : min_ℤ (remaining o) r ≡ r =
        min_right (remaining o) r (omega (int_laws, fits, times_nonneg n r open_left)) in
      let taken : f.2.quantity ≡ r = whole_level in
      let grown : f.0.filled_quantity ≡ o.filled_quantity +ℤ r = rw whole_level refl in
      rw (go, match_while, next o.filled_quantity, match_while)
        (match_while-repeats base quote f.0 (add_fill f result) st now level n next open_left
            (rw grown (omega (int_laws, fits)))
          ∙ rw (units-append result.trades (f.2 ∷ []), taken) (omega int_laws))

  -- If every one of n reads finds Redis as it was before the match, the best level there crosses the
  -- order and has an amount left, and the order wants at least n times that amount, then the trades of
  -- `MatchLimitOrders` together take n times what the level has left.
  pub match_limit_orders-overfills :
      ⦃f : Float64⦄ (base quote : String) (o : Order) (st : Store) (now : ℤ) (level : Order) (n : ℕ)
      → limit_level server o st ≡ some level
      → pos 0 <ℤ remaining level
      → times n (remaining level) ≤ℤ remaining o
      → let trades =
          (match_limit_orders server o base quote
            (replicate n (record { store = st; now = now }))).trades in
        units trades ≡ times n (remaining level)
  unfolding match_limit_orders limit_level
  match_limit_orders-overfills base quote o st now level n next open_left fits =
      match_while-repeats base quote o (empty_result o base quote) st now level n (λ _. next)
        open_left fits
      ∙ omega int_laws
