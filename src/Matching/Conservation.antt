-- ===== src/Matching/Conservation.antt =====
-- Settlement conserves money: `ApplyOrderResultToDBTx` moves USD and base units between users.
use cex_go.Database.Ensures.{Ensures-unless, Ensures, Ensures-mono, Ensures-bind}
use cex_go.Queries.Order.Effects.{
  OwnersExist, update_order_status_and_quantity_tx-Moved, same-Moved,
}
use cex_go.Queries.Order.{update_order_status_and_quantity_tx}
use cex_go.Matching.Fill.{remaining}
use cex_go.Queries.Trades.Effects.{OnlyTrades}
use cex_go.Prelude.{String, ◌≡◌, true, Bool-cases, List, inl, inr, str_eq, All, false, ap, ◌∙◌, not}
use cex_go.Prelude.Int.{pos, ◌+ℤ◌, ◌-ℤ◌, ◌≤ℤ◌, int_laws}
use cex_go.Float.{Float64, IsNumeric, column}
use cex_go.Models.{Trade, Order, buy, market}
use cex_go.Database.{Db, Session, ◌>>=◌, unless, ◌>>◌}
use cex_go.Database.Statement.{exists}
use cex_go.Queries.Balance.{
  of_user, debit_balance_tx, credit_usd_tx, credit_balance_tx, debit_usd_tx, unlock_balance_tx,
  unlock_usd_tx,
}
use cex_go.Queries.Balance.Totals.{Moved, Moved-trans, share, KeepsUsers, Moved-none, share_zero}
use cex_go.Queries.Balance.Moves.{
  debit_balance_tx-Moved, credit_usd_tx-Moved, credit_balance_tx-Moved, debit_usd_tx-Moved,
  unlock_usd_tx-Moved, unlock_balance_tx-Moved,
}
use cex_go.Matching.Settle.{
  Sums, settle_trades, insert_trades, update_others, settle_incoming_sell, settle_incoming_buy,
  settle_all, settle_incoming, apply_order_result_to_db_tx, no_sums,
}
use cex_go.Matching.Moves.{
  Moved-bind, Moved-eq, Moved-as, IsSound, IsSound-kept, units, payments, column-costs, share_add,
  positive_lem, units_nonneg, Moved-then,
}
use cex_go.Matching.Settlement.{
  SettledBuy, SettledSell, settle_trades_buy-Ensures, settle_trades_sell-Ensures,
}
use cex_go.Matching.Records.{AllIn, AllWhole, insert_trades-Ensures, update_others-Moved}
use cex_go.Matching.Loop.{OrderResult}

module _ (a : String) where
  module _ ⦃f : Float64⦄ (base : String) where
    settle_incoming_buy-Moved :
        (o : Order) (sums : Sums) (s : Session)
        → pos 0 ≤ℤ sums.credit
        → pos 0 ≤ℤ (column sums.debit)
        → Ensures
            (λ _ db. Moved a (pos 0 -ℤ (column sums.debit)) (share a base sums.credit) s.db db)
            (settle_incoming_buy o base sums s)
    unfolding settle_incoming_buy
    settle_incoming_buy-Moved o sums s hc hd =
        let e = share a base sums.credit in
        let d = pos 0 -ℤ (column sums.debit) in
        let unlock = unless (not (str_eq o.order_type market)) (unlock_usd_tx o.user_id o.price) in
        Moved-eq a (pos 0 +ℤ (d +ℤ pos 0)) (e +ℤ (pos 0 +ℤ pos 0)) d e s _ (omega int_laws)
          (omega int_laws)
          (Moved-bind a (pos 0) e (d +ℤ pos 0) (pos 0 +ℤ pos 0)
            (credit_balance_tx o.user_id base sums.credit)
            (λ _. debit_usd_tx o.user_id (column sums.debit) >> unlock) s
            (rw (positive_lem sums.credit hc) at
              (credit_balance_tx-Moved a o.user_id base sums.credit s))
            λ _ s' _.
              Moved-bind a d (pos 0) (pos 0) (pos 0) (debit_usd_tx o.user_id (column sums.debit))
                (λ _. unlock) s'
                (rw (positive_lem (column sums.debit) hd) at
                  (debit_usd_tx-Moved a o.user_id (column sums.debit) s'))
                λ _ s'' _.
                  Ensures-unless (not (str_eq o.order_type market)) _ s''
                    (λ _ db. Moved a (pos 0) (pos 0) s''.db db) (λ _. Moved-none a s''.db)
                    λ _. unlock_usd_tx-Moved a o.user_id o.price s'')

    settle_incoming_sell-Moved :
        (o : Order) (sums : Sums) (s : Session)
        → pos 0 ≤ℤ (column sums.credit)
        → pos 0 ≤ℤ sums.debit
        → exists (of_user o.user_id) s.db.users ≡ true
        → Ensures
            (λ _ db. Moved a (column sums.credit) (share a base (pos 0 -ℤ sums.debit)) s.db db)
            (settle_incoming_sell o base sums s)
    unfolding settle_incoming_sell
    settle_incoming_sell-Moved o sums s hc hd there =
        let e = share a base (pos 0 -ℤ sums.debit) in
        let unlock =
          unless (not (str_eq o.order_type market))
            (unlock_balance_tx o.user_id base (remaining o)) in
        Moved-eq a ((column sums.credit) +ℤ (pos 0 +ℤ pos 0)) (pos 0 +ℤ (e +ℤ pos 0))
          (column sums.credit) e s _ (omega int_laws) (omega int_laws)
          (Moved-bind a (column sums.credit) (pos 0) (pos 0 +ℤ pos 0) (e +ℤ pos 0)
            (credit_usd_tx o.user_id (column sums.credit))
            (λ _. debit_balance_tx o.user_id base sums.debit >> unlock) s
            (rw (positive_lem (column sums.credit) hc) at
              (credit_usd_tx-Moved a o.user_id (column sums.credit) s there))
            λ _ s' _.
              Moved-bind a (pos 0) e (pos 0) (pos 0) (debit_balance_tx o.user_id base sums.debit)
                (λ _. unlock) s'
                (rw (positive_lem sums.debit hd) at
                  (debit_balance_tx-Moved a o.user_id base sums.debit s'))
                λ _ s'' _.
                  Ensures-unless (not (str_eq o.order_type market)) _ s''
                    (λ _ db. Moved a (pos 0) (pos 0) s''.db db) (λ _. Moved-none a s''.db)
                    λ _. unlock_balance_tx-Moved a o.user_id base (remaining o) s'')

    settle_buy-Moved :
        (numeric : IsNumeric f) (o : Order) (ts : List Trade) (s : Session)
        → All (IsSound base s.db) ts
        → Ensures
            (λ _ db. Moved a (pos 0) (pos 0) s.db db)
            ((settle_trades true ts no_sums >>= settle_incoming_buy o base) s)
    settle_buy-Moved numeric o ts s sound =
        let u = units_nonneg base s.db ts sound in
        Ensures-bind (SettledBuy a base ts no_sums s.db) (λ _ db. Moved a (pos 0) (pos 0) s.db db)
          (settle_trades true ts no_sums) (settle_incoming_buy o base) s
          (settle_trades_buy-Ensures a base numeric ts no_sums s sound)
          λ sums s' (p, q, k).
            let credit : sums.credit ≡ units ts = rw p (omega int_laws) in
            let (debit, c) =
              column-costs base s.db numeric ts sums.debit sound (rw q (omega int_laws)) in
            Ensures-mono
              (λ _ db. Moved a (pos 0 -ℤ column sums.debit) (share a base sums.credit) s'.db db)
              (λ _ db. Moved a (pos 0) (pos 0) s.db db) (settle_incoming_buy o base sums s')
              (settle_incoming_buy-Moved o sums s' (rw credit u) c)
              λ _ db k'.
                Moved-as a (payments ts +ℤ (pos 0 -ℤ column sums.debit))
                  (share a base (pos 0 -ℤ units ts) +ℤ share a base sums.credit) (pos 0) (pos 0)
                  s.db db (rw debit (omega int_laws))
                  (share_add a base (pos 0 -ℤ units ts) sums.credit
                    ∙ ap (share a base) (rw credit (omega int_laws))
                    ∙ share_zero a base)
                  (Moved-trans a (payments ts) (share a base (pos 0 -ℤ units ts))
                    (pos 0 -ℤ column sums.debit) (share a base sums.credit) s.db s'.db db k k')

    settle_sell-Moved :
        (numeric : IsNumeric f) (o : Order) (ts : List Trade) (s : Session)
        → All (IsSound base s.db) ts
        → exists (of_user o.user_id) s.db.users ≡ true
        → Ensures
            (λ _ db. Moved a (pos 0) (pos 0) s.db db)
            ((settle_trades false ts no_sums >>= settle_incoming_sell o base) s)
    settle_sell-Moved numeric o ts s sound there =
        let u = units_nonneg base s.db ts sound in
        Ensures-bind (SettledSell a base ts no_sums s.db) (λ _ db. Moved a (pos 0) (pos 0) s.db db)
          (settle_trades false ts no_sums) (settle_incoming_sell o base) s
          (settle_trades_sell-Ensures a base numeric ts no_sums s sound)
          λ sums s' (p, q, k).
            let (credit, c) =
              column-costs base s.db numeric ts sums.credit sound (rw p (omega int_laws)) in
            let debit : sums.debit ≡ units ts = rw q (omega int_laws) in
            Ensures-mono
              (λ _ db. Moved a (column sums.credit) (share a base (pos 0 -ℤ sums.debit)) s'.db db)
              (λ _ db. Moved a (pos 0) (pos 0) s.db db) (settle_incoming_sell o base sums s')
              (settle_incoming_sell-Moved o sums s' c (rw debit u) (k.2 o.user_id there))
              λ _ db k'.
                Moved-as a ((pos 0 -ℤ payments ts) +ℤ column sums.credit)
                  (share a base (units ts) +ℤ share a base (pos 0 -ℤ sums.debit)) (pos 0) (pos 0)
                  s.db db (rw credit (omega int_laws))
                  (share_add a base (units ts) (pos 0 -ℤ sums.debit)
                    ∙ ap (share a base) (rw debit (omega int_laws))
                    ∙ share_zero a base)
                  (Moved-trans a (pos 0 -ℤ payments ts) (share a base (units ts))
                    (column sums.credit) (share a base (pos 0 -ℤ sums.debit)) s.db s'.db db k k')

    settle_all-Moved :
        (numeric : IsNumeric f) (o : Order) (ts : List Trade) (s : Session)
        → All (IsSound base s.db) ts
        → exists (of_user o.user_id) s.db.users ≡ true
        → Ensures (λ _ db. Moved a (pos 0) (pos 0) s.db db) (settle_all o base ts s)
    unfolding settle_all settle_incoming
    settle_all-Moved numeric o ts s sound there = elim (Bool-cases (str_eq o.side buy)) [
      | inl h ↦ rw h (settle_buy-Moved numeric o ts s sound)
      | inr h ↦ rw h (settle_sell-Moved numeric o ts s sound there)
    ]

  -- If `ApplyOrderResultToDBTx` succeeds, where products keep signs and columns hold eight decimals, on a
  -- result whose trades are all in its base asset and cost amounts for which eight decimals are enough,
  -- in a database where the users of all orders and of the incoming order are there, then it leaves the
  -- USD of all users, available and locked, and the units of every asset in all balances as they were.
  pub apply_order_result_to_db_tx-conserves :
      ⦃f : Float64⦄ (numeric : IsNumeric f) (result : OrderResult) (s : Session)
      → OwnersExist s.db
      → exists (of_user result.incoming_order.user_id) s.db.users ≡ true
      → AllIn result.base_asset result.trades
      → AllWhole result.trades
      → Ensures (λ _ db. Moved a (pos 0) (pos 0) s.db db) (apply_order_result_to_db_tx result s)
  unfolding apply_order_result_to_db_tx
  apply_order_result_to_db_tx-conserves numeric result s owners there same whole =
      let o = result.incoming_order in
      let base = result.base_asset in
      let Q : Unit {0} → Db → Type 0 = λ _ db. Moved a (pos 0) (pos 0) s.db db in
      let update = update_order_status_and_quantity_tx o.id o.status o.filled_quantity in
      Ensures-bind (λ ts db. All (IsSound base s.db) ts × OnlyTrades s.db db) Q
        (insert_trades result.trades)
        (λ ts. update_others o.id result.updated_orders >> (update >> settle_all o base ts)) s
        (insert_trades-Ensures base result.trades s owners same whole)
        λ ts s' (sound, (us, bs, _)).
          let keeps_users : KeepsUsers s.db s'.db = λ u h. rw us h in
          Ensures-mono (λ _ db. Moved a (pos 0) (pos 0) s'.db db) Q
            ((update_others o.id result.updated_orders >> (update >> settle_all o base ts)) s')
            (Moved-then a (update_others o.id result.updated_orders)
              (λ _. update >> settle_all o base ts) s'
              (update_others-Moved a o.id result.updated_orders s')
              λ _ s₁ k₁.
                Moved-then a update (λ _. settle_all o base ts) s₁
                  (update_order_status_and_quantity_tx-Moved a o.id o.status o.filled_quantity s₁)
                  λ _ s₂ k₂.
                    let kept : KeepsUsers s.db s₂.db = λ u h. k₂.2 u (k₁.2 u (keeps_users u h)) in
                    settle_all-Moved base numeric o ts s₂
                      (IsSound-kept base ts s.db s₂.db kept sound) (kept o.user_id there))
            λ _ db k.
              Moved-as a (pos 0 +ℤ pos 0) (pos 0 +ℤ pos 0) (pos 0) (pos 0) s.db db (omega int_laws)
                (omega int_laws)
                (Moved-trans a (pos 0) (pos 0) (pos 0) (pos 0) s.db s'.db db
                  (same-Moved a s.db s'.db us bs) k)
