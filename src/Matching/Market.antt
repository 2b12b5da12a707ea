-- ===== src/Matching/Market.antt =====
-- What `MatchMarketOrders` guarantees, whatever the successive reads of the book find.
use cex_go.Prelude.{
  Bool-cases, sym, str_eq, if◌then◌else◌, ◌≡◌, refl, ap, ◌∙◌, String, List, [], ◌∷◌, ◌++◌, ◌⊎◌, inl,
  inr, All, All-append, arith, false, ℕ,
}
use cex_go.Prelude.Int.{ℤ, pos, ◌+ℤ◌, ◌-ℤ◌, ◌<ℤ◌, int_laws, ◌≤ℤ◌}
use cex_go.Float.{Float64, mul, equal, Separates}
use cex_go.Models.{filled, buy, Order, Trade, cancelled}
use cex_go.Redis.{Server, best_ask_from_redis, best_bid_from_redis}
use cex_go.Matching.Fill.{fill_against_level_for_market_buy, fill_against_level}
use cex_go.Matching.Loop.{OrderResult, Read, add_fill, match_while-keeps, match_while}
use cex_go.Matching.Engine.{
  with_status, has_budget, empty_result, market_buy_quantity, market_status, match_market_buy,
  match_market_sell, is_unfilled,
}
use cex_go.Matching.Moves.{units}
use cex_go.Matching.Limits.{fill-IsFilling, start-IsFilling, IsFilling, units-append}

-- What a market buy takes from its amount for the trades, in memory
abbrev pub costs : ⦃f : Float64⦄ → List Trade → ℤ
costs [] = pos 0
costs (t ∷ ts) = mul t.price t.quantity +ℤ costs ts

costs-append : ⦃f : Float64⦄ (ts qs : List Trade) → costs (ts ++ qs) ≡ costs ts +ℤ costs qs
costs-append [] qs = omega int_laws
costs-append (t ∷ ts) qs = rw (costs-append ts qs) (omega int_laws)

-- A trade in which the order `o` is the buyer, in its market and in the asset `base`.
abbrev pub IsPurchaseOf : Order → String → Trade → Type 0
IsPurchaseOf o base t =
    (t.base_asset ≡ base) × (t.market_id ≡ o.market_id) × (t.buy_order_id ≡ o.id)

-- Where the loop of a market buy stands.
record IsSpending ⦃f : Float64⦄ (start : Order) (base : String) (o : Order) (result : OrderResult)
    : Type 0 where
  same : o ≡ record start {
    filled_quantity = o.filled_quantity;
    price = o.price;
    quantity = market_buy_quantity;
  }
  current : result.incoming_order ≡ record start {
    filled_quantity = o.filled_quantity;
    price = o.price;
    quantity = result.incoming_order.quantity;
  }
  sized : (result.trades ≡ []) ⊎ (result.incoming_order.quantity ≡ market_buy_quantity)
  spent : o.price ≡ start.price -ℤ costs result.trades
  bought : o.filled_quantity ≡ start.filled_quantity +ℤ units result.trades
  purchases : All (IsPurchaseOf start base) result.trades
  base_kept : result.base_asset ≡ base

fill-IsSpending :
    ⦃f : Float64⦄ (start : Order) (base quote : String) (o : Order) (result : OrderResult) (now : ℤ)
    (level : Order)
    → IsSpending start base o result
    → let f = fill_against_level_for_market_buy base quote now o level in
      IsSpending start base f.0 (add_fill f result)
unfolding fill_against_level_for_market_buy
fill-IsSpending start base quote o result now level v =
    let f = fill_against_level_for_market_buy base quote now o level in
    let kept : f.0 ≡ record start {
      filled_quantity = f.0.filled_quantity;
      price = f.0.price;
      quantity = market_buy_quantity;
    } =
      ap {A = Order} (λ x. record x { filled_quantity = f.0.filled_quantity; price = f.0.price })
        v.same in
    let size : o.quantity ≡ market_buy_quantity = ap (λ x. x.quantity) v.same in
    record {
      same = kept;
      current =
          ap {A = Order}
            (λ x. record x {
              filled_quantity = f.0.filled_quantity;
              price = f.0.price;
              quantity = o.quantity;
            })
            v.same;
      sized = inr size;
      spent = rw (costs-append result.trades (f.2 ∷ []), v.spent) (omega int_laws);
      bought = rw (units-append result.trades (f.2 ∷ []), v.bought) (omega int_laws);
      purchases =
          All-append (IsPurchaseOf start base) result.trades _ v.purchases
            ((refl, ap (λ x. x.market_id) v.same, ap (λ x. x.id) v.same), tt);
      base_kept = v.base_kept;
    }

market_status-cancelled :
    (most : ℕ) ⦃f : Float64⦄ (separates : Separates most f) (o : Order)
    → o.filled_quantity ≤ℤ pos most
    → pos most <ℤ o.quantity
    → market_status o ≡ cancelled
unfolding market_status
market_status-cancelled most separates o small large =
    elim (Bool-cases (equal o.filled_quantity o.quantity)) [
      | inr e ↦ rw e refl
      | inl e ↦
          let same : o.filled_quantity ≡ o.quantity =
            separates o.filled_quantity o.quantity small (omega arith) e in
          let within : o.quantity ≤ℤ pos most = rw same at small in absurd (omega arith)
    ]

-- A buy that spent something has the quantity of the branch, and cannot come to it.
IsSpending-cancelled :
    (most : ℕ) ⦃f : Float64⦄ (separates : Separates most f) (start : Order) (base : String)
    (o : Order) (result : OrderResult)
    → IsSpending start base o result
    → start.filled_quantity ≡ pos 0
    → pos 0 <ℤ start.price
    → result.incoming_order.price ≡ pos 0
    → units result.trades ≤ℤ pos most
    → pos most <ℤ market_buy_quantity
    → (result.incoming_order.quantity ≡ market_buy_quantity)
      × (market_status result.incoming_order ≡ cancelled)
IsSpending-cancelled most separates start base o result v empty paid spent small large =
    let i = result.incoming_order in
    let filled : i.filled_quantity ≡ units result.trades =
      ap (λ y. y.filled_quantity) v.current ∙ v.bought ∙ rw empty (omega int_laws) in
    let left : i.price ≡ start.price -ℤ costs result.trades =
      ap (λ y. y.price) v.current ∙ v.spent in
    elim v.sized [
      | inr h ↦ (h, market_status-cancelled most separates i (rw filled small) (rw h large))
      | inl none ↦
          let unspent : i.price ≡ start.price = left ∙ rw none (omega int_laws) in
          let positive : pos 0 <ℤ pos 0 = rw (sym unspent ∙ spent) at paid in absurd (omega arith)
    ]

-- A trade in which the order `o` is the seller.
abbrev pub IsSaleOf : Order → String → Trade → Type 0
IsSaleOf o base t = (t.base_asset ≡ base) × (t.market_id ≡ o.market_id) × (t.sell_order_id ≡ o.id)

sold :
    ⦃f : Float64⦄ (P : Trade → Type 0) (base : String) (start o : Order) (result : OrderResult)
    → IsFilling P start base o result
    → let q = start.filled_quantity +ℤ units result.trades in
      (with_status market_status result).incoming_order ≡ record start {
        filled_quantity = q;
        status = if equal q start.quantity then filled else cancelled;
      }
unfolding market_status
sold P base start o result v =
    ap {A = Order} (λ x. record x { status = market_status x }) v.current
    ∙ ap {A = Order} (λ x. record x { status = market_status x }) v.only_filled
    ∙ ap {A = ℤ}
        (λ q. record start {
          filled_quantity = q;
          status = if equal q start.quantity then filled else cancelled;
        })
        v.by_trades

module _ (server : Server) where
  open server use {Store}

  -- The loop of the buy branch, at its end
  market_buy-IsSpending :
      ⦃f : Float64⦄ (o : Order) (base quote : String) (reads : List (Read Store))
      → (x : Order) × IsSpending o base x (
          match_while has_budget
            (λ o. best_ask_from_redis server o.market_id)
            (fill_against_level_for_market_buy base quote)
            (record o { quantity = market_buy_quantity })
            (empty_result o base quote)
            reads)
  market_buy-IsSpending o base quote reads =
      match_while-keeps has_budget (λ o. best_ask_from_redis server o.market_id)
        (fill_against_level_for_market_buy base quote) (IsSpending o base)
        (λ x r st now level v _ _. fill-IsSpending o base quote x r now level v)
        (record o { quantity = market_buy_quantity }) (empty_result o base quote) reads
        (record {
          same = refl;
          current = refl;
          sized = inl refl;
          spent = omega int_laws;
          bought = omega int_laws;
          purchases = tt;
          base_kept = refl;
        })

  -- The buy branch of `MatchMarketOrders`: of the amount that the order came with as its price, the
  -- order that comes back has left what the trades together did not cost, its filled quantity grew by
  -- their units, and in every trade the order is the buyer, in its market and the given base asset.
  pub match_market_buy-spends :
      ⦃f : Float64⦄ (o : Order) (base quote : String) (reads : List (Read Store))
      → let result = match_market_buy server o base quote reads in
        (result.incoming_order.price ≡ o.price -ℤ costs result.trades)
        × (result.incoming_order.filled_quantity ≡ o.filled_quantity +ℤ units result.trades)
        × (result.incoming_order.user_id ≡ o.user_id)
        × All (IsPurchaseOf o base) result.trades
        × (result.base_asset ≡ base)
  unfolding match_market_buy
  match_market_buy-spends o base quote reads =
      let (x, v) = market_buy-IsSpending o base quote reads in
      (
        ap (λ y. y.price) v.current ∙ v.spent,
        ap (λ y. y.filled_quantity) v.current ∙ v.bought,
        ap (λ y. y.user_id) v.current,
        v.purchases,
        v.base_kept,
      )

  -- The buy branch of `MatchMarketOrders` on an order with a positive amount, of which nothing was filled
  -- before: if the trades take the whole amount, and units up to a `most` of less than 10^18 units, below
  -- which float64 tells amounts apart, the order comes back with 10^18 units as its quantity, and
  -- `CANCELLED`.
  pub match_market_buy-status :
      (most : ℕ) ⦃f : Float64⦄ (separates : Separates most f) (o : Order) (base quote : String)
      (reads : List (Read Store))
      → o.filled_quantity ≡ pos 0
      → pos 0 <ℤ o.price
      → let result = match_market_buy server o base quote reads in
        result.incoming_order.price ≡ pos 0
        → units result.trades ≤ℤ pos most
        → pos most <ℤ market_buy_quantity
        → (result.incoming_order.quantity ≡ market_buy_quantity)
          × (result.incoming_order.status ≡ cancelled)
  unfolding match_market_buy market_status
  match_market_buy-status most separates o base quote reads empty paid spent small large =
      let (x, v) = market_buy-IsSpending o base quote reads in
      IsSpending-cancelled most separates o base x _ v empty paid spent small large

  -- The sell branch of `MatchMarketOrders` on an order that is no buy order and is not filled beyond its
  -- quantity: the order comes back with its filled quantity grown by the units of all trades together
  -- and not beyond its quantity, `FILLED` if the float64 of the two are equal and `CANCELLED` if not,
  -- otherwise unchanged, and in every trade the order is the seller, in its market and the given base
  -- asset.
  pub match_market_sell-fills :
      ⦃f : Float64⦄ (o : Order) (base quote : String) (reads : List (Read Store))
      → str_eq o.side buy ≡ false
      → o.filled_quantity ≤ℤ o.quantity
      → let result = match_market_sell server o base quote reads in
        let q = o.filled_quantity +ℤ units result.trades in
        (result.incoming_order ≡ record o {
          filled_quantity = q;
          status = if equal q o.quantity then filled else cancelled;
        })
        × (q ≤ℤ o.quantity)
        × All (IsSaleOf o base) result.trades
        × (result.base_asset ≡ base)
  unfolding match_market_sell market_status fill_against_level
  match_market_sell-fills o base quote reads selling within =
      let (x, v) =
        match_while-keeps is_unfilled (λ o. best_bid_from_redis server o.market_id)
          (fill_against_level base quote) (IsFilling (IsSaleOf o base) o base)
          (λ x r st now level v _ _.
            fill-IsFilling (IsSaleOf o base) o base quote x r now level v
              (refl, refl, rw selling refl))
          o (empty_result o base quote) reads
          (start-IsFilling (IsSaleOf o base) o base quote within) in
      (sold (IsSaleOf o base) base o x _ v, rw (← v.by_trades) v.within, v.trades_fit, v.base_kept)
