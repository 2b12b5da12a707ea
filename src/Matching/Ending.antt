-- ===== src/Matching/Ending.antt =====
-- When `MatchLimitOrders` stops, and with which status.
use cex_go.Prelude.{
  ◌≡◌, refl, ap, ◌⊎◌, inl, inr, ◌+◌, String, Bool, false, Option, none, List, [], ◌∷◌, length,
  length-append, Mem, Bool-cases, Option-cases, arith, ℕ,
}
use cex_go.Prelude.Int.{ℤ, pos, ◌≤ℤ◌, ◌<ℤ◌, ltb_ℤ, eq_of_parts}
use cex_go.Float.{Float64, equal, Separates}
use cex_go.Models.{Order, Trade, filled, partially_filled, open_status}
use cex_go.Redis.{Server}
use cex_go.Matching.Fill.{fill_against_level}
use cex_go.Matching.Loop.{OrderResult, Read, add_fill, match_while}
use cex_go.Matching.Engine.{
  limit_level, limit_status, is_unfilled, empty_result, match_limit_orders,
}
use cex_go.Matching.Limits.{match_limit_orders-fills}

module _ {Store : Type 0} (test : Order → Bool) (next : Order → Store → Option Order)
    (fill : ℤ → Order → Order → Order × Order × Trade) where
  -- The loop ends at the deadline, after a fill for each read, or with an order that fails the test,
  -- or at a read that finds no level for the order as it then is.
  pub match_while-ends :
      (order : Order) (result : OrderResult) (reads : List (Read Store))
      → result.incoming_order ≡ order
      → let m = match_while test next fill order result reads in
        (length m.trades ≡ length result.trades + length reads)
        ⊎ ((test m.incoming_order ≡ false)
            ⊎ ((r : Read Store) × Mem r reads × (next m.incoming_order r.store ≡ none)))
  unfolding match_while
  match_while-ends order result [] same = inl (omega arith)
  match_while-ends order result (r ∷ rs) same = elim (Bool-cases (test order)) [
    | inr stop ↦ rw (stop, match_while, same) (inr (inl stop))
    | inl go ↦ elim (Option-cases (next order r.store)) [
      | inl e ↦ rw (go, match_while, e, match_while, same) (inr (inr (r, inl refl, e)))
      | inr (level, e) ↦
          let f = fill r.now order level in
          rw (go, match_while, e, match_while)
            (elim (match_while-ends f.0 (add_fill f result) rs refl) [
              | inl h ↦ inl (omega (arith, h, length-append result.trades (f.2 ∷ [])))
              | inr (inl h) ↦ inr (inl h)
              | inr (inr (r', m, h)) ↦ inr (inr (r', inr m, h))
            ])
    ]
  ]

-- What the status that `MatchLimitOrders` sets says of the order: `FILLED`, and it is filled to its
-- quantity; `PARTIALLY_FILLED`, and some of it is filled; or `OPEN`, and nothing of it is filled.
abbrev pub TellsFilling : Order → Type 0
TellsFilling o =
    ((o.status ≡ filled) × (o.filled_quantity ≡ o.quantity))
    ⊎ (((o.status ≡ partially_filled)
          × (pos 0 <ℤ o.filled_quantity)
          × (o.filled_quantity ≤ℤ o.quantity))
        ⊎ ((o.status ≡ open_status) × (o.filled_quantity ≤ℤ pos 0)))

limit_status-TellsFilling :
    (most : ℕ) ⦃f : Float64⦄ (separates : Separates most f) (o : Order)
    → pos 0 ≤ℤ o.quantity
    → o.quantity ≤ℤ pos most
    → o.filled_quantity ≤ℤ o.quantity
    → TellsFilling (record o { status = limit_status o })
unfolding limit_status
limit_status-TellsFilling most separates o positive small within =
    elim (Bool-cases (equal o.filled_quantity o.quantity)) [
      | inl h ↦ inl (rw h refl, separates o.filled_quantity o.quantity (omega arith) positive h)
      | inr h ↦ elim (Bool-cases (ltb_ℤ (pos 0) o.filled_quantity)) [
        | inl k ↦ inr (inl (rw (h, k) refl, ground arith, within))
        | inr k ↦ inr (inr (rw (h, k) refl, ground arith))
      ]
    ]

stopped-filled :
    (o : Order)
    → o.filled_quantity ≤ℤ o.quantity
    → is_unfilled o ≡ false
    → o.filled_quantity ≡ o.quantity
stopped-filled o within h = eq_of_parts o.filled_quantity o.quantity (ground arith)

module _ (server : Server) where
  open server use {Store}

  -- `MatchLimitOrders` on an order for a quantity up to a `most`, below which float64 tells amounts apart,
  -- not negative, and not filled beyond it, with the reads that its deadline of 10 seconds leaves it: it
  -- sets `FILLED` only on an order that is filled to its quantity, `PARTIALLY_FILLED` only where some of
  -- it is filled, and `OPEN` only where nothing is; and it gives up only after a fill for each read, or
  -- when the order is filled to its quantity, or at a read that finds no level that crosses the order.
  pub match_limit_orders-ends :
      (most : ℕ) ⦃f : Float64⦄ (separates : Separates most f) (o : Order) (base quote : String)
      (reads : List (Read Store))
      → pos 0 ≤ℤ o.quantity
      → o.quantity ≤ℤ pos most
      → o.filled_quantity ≤ℤ o.quantity
      → let result = match_limit_orders server o base quote reads in
        let incoming = result.incoming_order in
        TellsFilling incoming
        × ((length result.trades ≡ length reads)
            ⊎ ((incoming.filled_quantity ≡ incoming.quantity)
                ⊎ ((r : Read Store) × Mem r reads × (limit_level server incoming r.store ≡ none))))
  unfolding match_limit_orders limit_level limit_status
  match_limit_orders-ends most separates o base quote reads positive small within =
      let m =
        match_while is_unfilled (limit_level server) (fill_against_level base quote) o
          (empty_result o base quote) reads in
      let kept = match_limit_orders-fills server o base quote reads within in
      let quantity : m.incoming_order.quantity ≡ o.quantity = ap (λ x. x.quantity) kept.0 in
      let inside : m.incoming_order.filled_quantity ≤ℤ m.incoming_order.quantity =
        rw quantity kept.2 in
      (
        limit_status-TellsFilling most separates m.incoming_order (rw quantity positive)
            (rw quantity small) inside,
        elim (match_while-ends is_unfilled (limit_level server) (fill_against_level base quote) o
            (empty_result o base quote) reads refl) [
              | inl h ↦ inl (omega (arith, h))
              | inr (inl h) ↦ inr (inl (stopped-filled m.incoming_order inside h))
              | inr (inr h) ↦ inr (inr h)
            ],
      )
