-- ===== src/Matching/Settlement.antt =====
-- The money that the settlement of trades moves: from the other sides of the trades to the sums that
-- the incoming order is credited and debited, and from there to its user.
use cex_go.Prelude.{refl, String, ◌≡◌, true, List, [], ◌∷◌, arith, All, false, sym, ap, ◌∙◌}
use cex_go.Prelude.Int.{ℤ, pos, ◌+ℤ◌, ◌-ℤ◌, ◌≤ℤ◌, int_laws}
use cex_go.Float.{Float64, IsNumeric}
use cex_go.Models.{Trade}
use cex_go.Database.{Db, Session}
use cex_go.Database.Ensures.{Ensures, Ensures-mono, Ensures-bind}
use cex_go.Queries.Balance.{debit_balance_tx, credit_usd_tx, credit_balance_tx, debit_usd_tx}
use cex_go.Queries.Balance.Totals.{Moved, Moved-trans, share, Moved-none, share_zero}
use cex_go.Queries.Balance.Moves.{
  debit_balance_tx-Moved, credit_usd_tx-Moved, credit_balance_tx-Moved, debit_usd_tx-Moved,
}
use cex_go.Matching.Settle.{cost, paid, settle_seller, Sums, settle_trades, settle_buyer}
use cex_go.Matching.Moves.{
  Moved-bind, Moved-eq, Moved-as, IsSound, IsSound-kept, units, costs, payments, paid_nonneg,
  share_add, positive_lem,
}

module _ (a : String) where
  module _ ⦃f : Float64⦄ (base : String) where
    settle_seller-Moved :
        (t : Trade) (s : Session)
        → IsSound base s.db t
        → pos 0 ≤ℤ paid t
        → Ensures
            (λ _ db. Moved a (paid t) (share a base (pos 0 -ℤ t.quantity)) s.db db)
            (settle_seller t s)
    unfolding settle_seller
    settle_seller-Moved t s (q, p, b, _, there, _) c =
        let e = share a t.base_asset (pos 0 -ℤ t.quantity) in
        Moved-eq a (pos 0 +ℤ paid t) (e +ℤ pos 0) (paid t) (share a base (pos 0 -ℤ t.quantity)) s _
          (omega int_laws) (rw b (omega int_laws))
          (Moved-bind a (pos 0) e (paid t) (pos 0)
            (debit_balance_tx t.sell_order.user_id t.base_asset t.quantity)
            (λ _. credit_usd_tx t.sell_order.user_id (paid t)) s
            (rw (positive_lem t.quantity (omega arith)) at
              (debit_balance_tx-Moved a t.sell_order.user_id t.base_asset t.quantity s))
            λ _ s' k. rw (positive_lem (paid t) c) at (
              credit_usd_tx-Moved a t.sell_order.user_id (paid t) s'
                (k.2 t.sell_order.user_id there)))

    settle_buyer-Moved :
        (t : Trade) (s : Session)
        → IsSound base s.db t
        → pos 0 ≤ℤ paid t
        → Ensures
            (λ _ db. Moved a (pos 0 -ℤ paid t) (share a base t.quantity) s.db db)
            (settle_buyer t s)
    unfolding settle_buyer
    settle_buyer-Moved t s (q, p, b, _, _, _) c =
        let e = share a t.base_asset t.quantity in
        Moved-eq a (pos 0 +ℤ (pos 0 -ℤ paid t)) (e +ℤ pos 0) (pos 0 -ℤ paid t)
          (share a base t.quantity) s _ (omega int_laws) (rw b (omega int_laws))
          (Moved-bind a (pos 0) e (pos 0 -ℤ paid t) (pos 0)
            (credit_balance_tx t.buy_order.user_id t.base_asset t.quantity)
            (λ _. debit_usd_tx t.buy_order.user_id (paid t)) s
            (rw (positive_lem t.quantity (omega arith)) at
              (credit_balance_tx-Moved a t.buy_order.user_id t.base_asset t.quantity s))
            λ _ s' k.
              rw (positive_lem (paid t) c) at
                (debit_usd_tx-Moved a t.buy_order.user_id (paid t) s'))

    share_none : (x : ℤ) → x ≡ pos 0 → share a base x ≡ pos 0
    share_none x e = rw e (share_zero a base)

    -- What the incoming order is to receive and to pay, and what the others have been given so far.
    abbrev pub SettledBuy : List Trade → Sums → Db → Sums → Db → Type 0
    SettledBuy ts sums before sums' after =
        (sums'.credit ≡ sums.credit +ℤ units ts)
        × (sums'.debit ≡ sums.debit +ℤ costs ts)
        × Moved a (payments ts) (share a base (pos 0 -ℤ units ts)) before after

    pub settle_trades_buy-Ensures :
        (numeric : IsNumeric f) (ts : List Trade) (sums : Sums) (s : Session)
        → All (IsSound base s.db) ts
        → Ensures (SettledBuy ts sums s.db) (settle_trades true ts sums s)
    unfolding settle_trades
    settle_trades_buy-Ensures numeric [] sums s h = (
      omega int_laws,
      omega int_laws,
      Moved-as a (pos 0) (pos 0) (pos 0) (share a base (pos 0 -ℤ pos 0)) s.db s.db refl
          (sym (share_none (pos 0 -ℤ pos 0) (omega int_laws))) (Moved-none a s.db),
    )
    settle_trades_buy-Ensures numeric (t ∷ ts) sums s h =
        let next : Sums = record {
          credit = sums.credit +ℤ t.quantity;
          debit = sums.debit +ℤ cost t;
        } in
        let c : pos 0 ≤ℤ paid t = paid_nonneg base s.db numeric t h.0 in
        let e : ℤ = share a base (pos 0 -ℤ t.quantity) in
        Ensures-bind (λ _ db. Moved a (paid t) e s.db db) (SettledBuy (t ∷ ts) sums s.db)
          (settle_seller t) (λ _. settle_trades true ts next) s (settle_seller-Moved t s h.0 c)
          λ _ s' k.
            Ensures-mono (SettledBuy ts next s'.db) (SettledBuy (t ∷ ts) sums s.db)
              (settle_trades true ts next s')
              (settle_trades_buy-Ensures numeric ts next s'
                (IsSound-kept base ts s.db s'.db k.2 h.1))
              λ sums' db (p, q, k'). (
                rw p (omega int_laws),
                rw q (omega int_laws),
                Moved-as a (paid t +ℤ payments ts) (e +ℤ share a base (pos 0 -ℤ units ts))
                    (payments (t ∷ ts)) (share a base (pos 0 -ℤ units (t ∷ ts))) s.db db refl
                    (share_add a base (pos 0 -ℤ t.quantity) (pos 0 -ℤ units ts)
                      ∙ ap (share a base) (omega int_laws))
                    (Moved-trans a (paid t) e (payments ts) (share a base (pos 0 -ℤ units ts)) s.db
                      s'.db db k k'),
              )

    -- The same for an incoming sell order.
    abbrev pub SettledSell : List Trade → Sums → Db → Sums → Db → Type 0
    SettledSell ts sums before sums' after =
        (sums'.credit ≡ sums.credit +ℤ costs ts)
        × (sums'.debit ≡ sums.debit +ℤ units ts)
        × Moved a (pos 0 -ℤ payments ts) (share a base (units ts)) before after

    pub settle_trades_sell-Ensures :
        (numeric : IsNumeric f) (ts : List Trade) (sums : Sums) (s : Session)
        → All (IsSound base s.db) ts
        → Ensures (SettledSell ts sums s.db) (settle_trades false ts sums s)
    unfolding settle_trades
    settle_trades_sell-Ensures numeric [] sums s h = (
      omega int_laws,
      omega int_laws,
      Moved-as a (pos 0) (pos 0) (pos 0 -ℤ pos 0) (share a base (pos 0)) s.db s.db (omega int_laws)
          (sym (share_none (pos 0) refl)) (Moved-none a s.db),
    )
    settle_trades_sell-Ensures numeric (t ∷ ts) sums s h =
        let next : Sums = record {
          credit = sums.credit +ℤ cost t;
          debit = sums.debit +ℤ t.quantity;
        } in
        let c : pos 0 ≤ℤ paid t = paid_nonneg base s.db numeric t h.0 in
        let e : ℤ = share a base t.quantity in
        Ensures-bind (λ _ db. Moved a (pos 0 -ℤ paid t) e s.db db) (SettledSell (t ∷ ts) sums s.db)
          (settle_buyer t) (λ _. settle_trades false ts next) s (settle_buyer-Moved t s h.0 c)
          λ _ s' k.
            Ensures-mono (SettledSell ts next s'.db) (SettledSell (t ∷ ts) sums s.db)
              (settle_trades false ts next s')
              (settle_trades_sell-Ensures numeric ts next s'
                (IsSound-kept base ts s.db s'.db k.2 h.1))
              λ sums' db (p, q, k'). (
                rw p (omega int_laws),
                rw q (omega int_laws),
                Moved-as a ((pos 0 -ℤ paid t) +ℤ (pos 0 -ℤ payments ts))
                    (e +ℤ share a base (units ts)) (pos 0 -ℤ payments (t ∷ ts))
                    (share a base (units (t ∷ ts))) s.db db (omega int_laws)
                    (share_add a base t.quantity (units ts))
                    (Moved-trans a (pos 0 -ℤ paid t) e (pos 0 -ℤ payments ts)
                      (share a base (units ts)) s.db s'.db db k k'),
              )
