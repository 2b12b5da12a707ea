-- ===== src/Matching/Limits.antt =====
-- What `MatchLimitOrders` guarantees, whatever the successive reads of the book find: the incoming
-- order is filled by just what the trades say, never beyond its quantity, and never at a price worse
-- than its limit.
use mathlib.Core.Path.{subst}
use mathlib.Core.Option.{some-injective}
use cex_go.Prelude.{
  String, ◌≡◌, refl, ap, true, false, Bool, Bool-cases, Option, none, some, List, [], ◌∷◌, ◌++◌,
  All, All-append, inl, inr, arith, str_eq, sym,
}
use cex_go.Prelude.Int.{ℤ, ◌+ℤ◌, ◌≤ℤ◌, ltb_ℤ, min_ℤ, int_laws}
use cex_go.Float.{Float64}
use cex_go.Models.{Order, Trade, buy}
use cex_go.Redis.{Server, best_ask_from_redis, best_bid_from_redis}
use cex_go.Matching.Fill.{remaining, fill_against_level}
use cex_go.Matching.Loop.{OrderResult, Read, add_fill, match_while-keeps}
use cex_go.Matching.Engine.{
  crossing, limit_level, limit_status, is_unfilled, empty_result, match_limit_orders,
}
use cex_go.Matching.Moves.{units}

pub min_le_left : (a b : ℤ) → min_ℤ a b ≤ℤ a
unfolding min_ℤ
min_le_left a b = ground arith

pub min_le_right : (a b : ℤ) → min_ℤ a b ≤ℤ b
unfolding min_ℤ
min_le_right a b = ground arith

pub units-append : (ts qs : List Trade) → units (ts ++ qs) ≡ units ts +ℤ units qs
units-append [] qs = omega int_laws
units-append (t ∷ ts) qs = rw (units-append ts qs) (omega int_laws)

crossing-holds :
    (stops : Order → Bool) (o : Option Order) (level : Order)
    → crossing stops o ≡ some level
    → stops level ≡ false
crossing-holds stops none level e = absurd (cc e)
crossing-holds stops (some l) level e = elim (Bool-cases (stops l)) [
  | inl h ↦ cc (rw (h, crossing) at e)
  | inr h ↦ subst (λ x. stops x ≡ false) (some-injective l level (rw (h, crossing) at e)) h
]

le_of_not_lt : (a b : ℤ) → ltb_ℤ a b ≡ false → b ≤ℤ a
le_of_not_lt a b h = ground arith

-- A trade of the order `o`: in its market and in the asset `base`, on its side, at its price or better.
abbrev pub IsTradeOf : Order → String → Trade → Type 0
IsTradeOf o base t =
    (t.base_asset ≡ base)
    × (t.market_id ≡ o.market_id)
    × (str_eq o.side buy ≡ true → (t.buy_order_id ≡ o.id) × (t.price ≤ℤ o.price))
    × (str_eq o.side buy ≡ false → (t.sell_order_id ≡ o.id) × (o.price ≤ℤ t.price))

-- Where the loop stands, with the order `o` that came as `start`, and with trades that all have `P`.
pub record IsFilling (P : Trade → Type 0) (start : Order) (base : String) (o : Order)
    (result : OrderResult) : Type 0 where
  pub current : result.incoming_order ≡ o
  pub only_filled : o ≡ record start { filled_quantity = o.filled_quantity }
  pub by_trades : o.filled_quantity ≡ start.filled_quantity +ℤ units result.trades
  pub within : o.filled_quantity ≤ℤ start.quantity
  pub trades_fit : All P result.trades
  pub base_kept : result.base_asset ≡ base

pub start-IsFilling :
    (P : Trade → Type 0) (o : Order) (base quote : String)
    → o.filled_quantity ≤ℤ o.quantity
    → IsFilling P o base o (empty_result o base quote)
start-IsFilling P o base quote within = record {
  current = refl;
  only_filled = refl;
  by_trades = omega int_laws;
  within = within;
  trades_fit = tt;
  base_kept = refl;
}

pub fill-IsFilling :
    (P : Trade → Type 0) (start : Order) (base quote : String) (o : Order) (result : OrderResult)
    (now : ℤ) (level : Order)
    → IsFilling P start base o result
    → P
        (fill_against_level base quote now
          (record start { filled_quantity = o.filled_quantity })
          level).2
    → let f = fill_against_level base quote now o level in
      IsFilling P start base f.0 (add_fill f result)
unfolding fill_against_level
fill-IsFilling P start base quote o result now level v fits =
    let f = fill_against_level base quote now o level in
    let same : o.quantity ≡ start.quantity = ap (λ x. x.quantity) v.only_filled in
    let fits' : P f.2 =
      subst (λ x. P (fill_against_level base quote now x level).2) (sym v.only_filled) fits in
    record {
      current = refl;
      only_filled =
          ap {A = Order} (λ x. record x { filled_quantity = f.0.filled_quantity }) v.only_filled;
      by_trades = rw (units-append result.trades (f.2 ∷ []), v.by_trades) (omega int_laws);
      within = rw (← same) (omega (int_laws, min_le_left (remaining o) (remaining level)));
      trades_fit = All-append P result.trades _ v.trades_fit (fits', tt);
      base_kept = v.base_kept;
    }

module _ (server : Server) where
  open server use {Store}

  limit_level-crosses :
      (o : Order) (st : Store) (level : Order)
      → limit_level server o st ≡ some level
      → (str_eq o.side buy ≡ true → level.price ≤ℤ o.price)
        × (str_eq o.side buy ≡ false → o.price ≤ℤ level.price)
  unfolding limit_level
  limit_level-crosses o st level e = (
    λ h. le_of_not_lt o.price level.price (
        crossing-holds (λ l. ltb_ℤ o.price l.price) (best_ask_from_redis server o.market_id st)
          level (rw (h, limit_level) at e)),
    λ h. le_of_not_lt level.price o.price (
        crossing-holds (λ l. ltb_ℤ l.price o.price) (best_bid_from_redis server o.market_id st)
          level (rw (h, limit_level) at e)),
  )

  fill-IsTradeOf :
      (o : Order) (base quote : String) (now : ℤ) (st : Store) (level : Order)
      → limit_level server o st ≡ some level
      → IsTradeOf o base (fill_against_level base quote now o level).2
  unfolding fill_against_level
  fill-IsTradeOf o base quote now st level e =
      let (p, q) = limit_level-crosses o st level e in
      (refl, refl, λ h. rw h (refl, p h), λ h. rw h (refl, q h))

  limit_level-same :
      (start o : Order) (st : Store)
      → o ≡ record start { filled_quantity = o.filled_quantity }
      → limit_level server o st
        ≡ limit_level server (record start { filled_quantity = o.filled_quantity }) st
  limit_level-same start o st e = ap (λ x. limit_level server x st) e

  -- `MatchLimitOrders` on an order that is not filled beyond its quantity, whatever the successive
  -- reads of the book find: the order that comes back differs from the one that came in its filled
  -- quantity and its status only, its filled quantity grew by the units of all trades together, it is
  -- not filled beyond its quantity, and every trade is a trade of that order, in its market and the
  -- given base asset, on its side and at its price or better.
  pub match_limit_orders-fills :
      ⦃f : Float64⦄ (o : Order) (base quote : String) (reads : List (Read Store))
      → o.filled_quantity ≤ℤ o.quantity
      → let result = match_limit_orders server o base quote reads in
        let q = result.incoming_order.filled_quantity in
        (result.incoming_order
          ≡ record o { filled_quantity = q; status = result.incoming_order.status })
        × (q ≡ o.filled_quantity +ℤ units result.trades)
        × (q ≤ℤ o.quantity)
        × All (IsTradeOf o base) result.trades
        × (result.base_asset ≡ base)
  unfolding match_limit_orders
  match_limit_orders-fills o base quote reads within =
      let (o', v) =
        match_while-keeps is_unfilled (limit_level server) (fill_against_level base quote)
          (IsFilling (IsTradeOf o base) o base)
          (λ x r st now level v _ e.
            fill-IsFilling (IsTradeOf o base) o base quote x r now level v (
              fill-IsTradeOf (record o { filled_quantity = x.filled_quantity }) base quote now st
                level (rw (limit_level-same o x st v.only_filled) at e)))
          o (empty_result o base quote) reads
          (start-IsFilling (IsTradeOf o base) o base quote within) in
      rw v.current (
        ap {A = Order} (λ x. record x { status = limit_status o' }) v.only_filled,
        v.by_trades,
        v.within,
        v.trades_fit,
        v.base_kept,
      )
