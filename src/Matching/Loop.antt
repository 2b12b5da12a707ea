-- ===== src/Matching/Loop.antt =====
-- The loop that `MatchLimitOrders` and both branches of `MatchMarketOrders` share: while the test
-- holds, read the best level, stop if there is none to match, fill, and record the two orders and the
-- trade. The list holds what the successive reads find, up to the deadline of the context (10 seconds),
-- at which the next read fails and the loop stops.
use cex_go.Prelude.{
  ◌≡◌, String, Bool, true, false, Option, none, some, List, [], ◌∷◌, ◌++◌, inl, inr, Bool-cases,
  Option-cases,
}
use cex_go.Prelude.Int.{ℤ}
use cex_go.Models.{Order, Trade}

pub record OrderResult : Type 0 where
  pub incoming_order : Order
  pub updated_orders : List Order
  pub trades : List Trade
  pub base_asset : String
  pub quote_asset : String

-- What one round finds: the store that Redis reads, and the time of the fill.
pub record Read (Store : Type 0) : Type 0 where
  pub store : Store
  pub now : ℤ

abbrev pub add_fill : Order × Order × Trade → OrderResult → OrderResult
add_fill (incoming, against, trade) result = record result {
  updated_orders = result.updated_orders ++ (incoming ∷ against ∷ []);
  trades = result.trades ++ (trade ∷ []);
  incoming_order = incoming;
}

module _ {Store : Type 0} (test : Order → Bool) (next : Order → Store → Option Order)
    (fill : ℤ → Order → Order → Order × Order × Trade) where
  unfoldable pub match_while : Order → OrderResult → List (Read Store) → OrderResult
  match_while order result [] = result
  match_while order result (r ∷ rs) = elim (test order) [
    | false ↦ result
    | true ↦ elim (next order r.store) [
      | none ↦ result
      | some level ↦
          match_while (fill r.now order level).0 (add_fill (fill r.now order level) result) rs
    ]
  ]

  -- What every fill keeps holds of the result.
  pub match_while-keeps :
      (P : Order → OrderResult → Type 0)
      → ((order : Order) (result : OrderResult) (st : Store) (now : ℤ) (level : Order)
          → P order result
          → test order ≡ true
          → next order st ≡ some level
          → P (fill now order level).0 (add_fill (fill now order level) result))
      → (order : Order) (result : OrderResult) (reads : List (Read Store)) → P order result
      → (o : Order) × P o (match_while order result reads)
  unfolding match_while
  match_while-keeps P step order result [] p = (order, p)
  match_while-keeps P step order result (r ∷ rs) p = elim (Bool-cases (test order)) [
    | inr stop ↦ rw (stop, match_while) (order, p)
    | inl go ↦ elim (Option-cases (next order r.store)) [
      | inl e ↦ rw (go, match_while, e, match_while) (order, p)
      | inr (level, e) ↦
          rw (go, match_while, e, match_while)
            (match_while-keeps P step (fill r.now order level).0
              (add_fill (fill r.now order level) result) rs
              (step order result r.store r.now level p go e))
    ]
  ]
