-- ===== src/Matching/Keeping.antt =====
-- What a settlement keeps of the tables.
use cex_go.Prelude.{
  ℕ, String, Bool, Bool-cases, true, false, inl, inr, List, [], ◌∷◌, ◌++◌, refl, not, str_eq, ◌==◌,
}
use cex_go.Prelude.Int.{ℤ}
use cex_go.Float.{Float64, column}
use cex_go.Models.{Order, Trade, buy, market}
use cex_go.Database.{Db, TradeRow, Session, pure, unless, ◌>>◌, ◌>>=◌, order_check, trade_check}
use cex_go.Database.Statement.{exec_insert, query_row, read_row}
use cex_go.Database.Ensures.{
  Ensures-mono, exec_insert-Ensures, query_row-Ensures, read_row-Ensures, exec_update-Ensures,
}
use cex_go.Queries.Balance.{
  debit_balance_tx, credit_usd_tx, credit_balance_tx, debit_usd_tx, unlock_usd_tx,
  unlock_balance_tx,
}
use cex_go.Queries.Kept.{IsKept, Ends, Ends-bind, unless-Ends}
use cex_go.Queries.Balance.Keeping.{
  debit_balance_tx-Ends, credit_balance_tx-Ends, debit_usd_tx-Ends, credit_usd_tx-Ends,
  unlock_usd_tx-Ends, unlock_balance_tx-Ends,
}
use cex_go.Queries.Order.{put_orders, of_order, update_order_status_and_quantity_tx}
use cex_go.Queries.Trades.{
  insert_trade_tx, put_trades, new_trade_row, same_trade_key, trade_known, select_users,
  second_order, inserted_trade,
}
use cex_go.Matching.Fill.{remaining}
use cex_go.Matching.Loop.{OrderResult}
use cex_go.Matching.Settle.{
  Sums, no_sums, paid, insert_trades, update_others, settle_seller, settle_buyer, settle_trades,
  settle_incoming, settle_incoming_buy, settle_incoming_sell, settle_all,
  apply_order_result_to_db_tx,
}

module _ (P : Db → Type 0) (kept : IsKept P) where
  update_order-Ends :
      (id : ℕ) (status : String) (filled_quantity : ℤ) (s : Session)
      → P s.db
      → Ends P (update_order_status_and_quantity_tx id status filled_quantity) s
  unfolding update_order_status_and_quantity_tx
  update_order-Ends id status filled_quantity s v =
      Ensures-mono _ (λ _ db. P db) _
        (exec_update-Ensures (λ db. db.orders) put_orders (of_order id)
          (λ r. record r { status = status; filled_quantity = filled_quantity }) order_check s)
        λ _ db u. elim u [
          | inl (_, e) ↦ rw e v
          | inr (_, _, _, e) ↦ rw e (
              kept.changes_order s.db (of_order id)
                (λ r. record r { status = status; filled_quantity = filled_quantity }) (λ q. refl)
                v)
        ]

  select_users-Ends : (row : TradeRow) (s : Session) → P s.db → Ends P (select_users row) s
  select_users-Ends row s v =
      Ends-bind P (query_row (λ db. db.orders) put_orders (of_order row.buy_order_id))
        (second_order row) s
        (Ensures-mono _ (λ _ db. P db) _
          (query_row-Ensures (λ db. db.orders) put_orders (of_order row.buy_order_id) s)
          λ _ db (e, _). rw e v)
        λ bo s' v'.
          Ends-bind P (read_row (λ db. db.orders) put_orders (of_order row.sell_order_id))
            (λ so. pure (inserted_trade row bo so)) s'
            (Ensures-mono _ (λ _ db. P db) _
              (read_row-Ensures (λ db. db.orders) put_orders (of_order row.sell_order_id) s')
              λ _ db (e, _). rw e v')
            λ _ _ v''. v''

  insert_trade_tx-Ends : (t : Trade) (s : Session) → P s.db → Ends P (insert_trade_tx t) s
  unfolding insert_trade_tx
  insert_trade_tx-Ends t s v =
      Ends-bind P
        (exec_insert (λ db. db.trades) put_trades (new_trade_row t) trade_check same_trade_key
          trade_known)
        select_users s
        (Ensures-mono _ (λ _ db. P db) _
          (exec_insert-Ensures (λ db. db.trades) put_trades (new_trade_row t) trade_check
            same_trade_key trade_known s)
          λ row db (_, _, _, _, e). rw e (kept.stores_trades s.db (s.db.trades ++ (row ∷ [])) v))
        select_users-Ends

  insert_trades-Ends : (ts : List Trade) (s : Session) → P s.db → Ends P (insert_trades ts) s
  unfolding insert_trades
  insert_trades-Ends [] s v = v
  insert_trades-Ends (t ∷ ts) s v =
      Ends-bind P (insert_trade_tx t) (λ q. insert_trades ts >>= λ qs. pure (q ∷ qs)) s
        (insert_trade_tx-Ends t s v)
        λ q s' v'.
          Ends-bind P (insert_trades ts) (λ qs. pure (q ∷ qs)) s' (insert_trades-Ends ts s' v')
            λ _ _ v''. v''

  update_others-Ends :
      (incoming : ℕ) (os : List Order) (s : Session) → P s.db → Ends P (update_others incoming os) s
  unfolding update_others
  update_others-Ends incoming [] s v = v
  update_others-Ends incoming (o ∷ os) s v =
      let update = update_order_status_and_quantity_tx o.id o.status o.filled_quantity in
      Ends-bind P (unless (o.id == incoming) update) (λ _. update_others incoming os) s
        (unless-Ends P (o.id == incoming) update s v
          (update_order-Ends o.id o.status o.filled_quantity s v))
        λ _ s' v'. update_others-Ends incoming os s' v'

  module _ ⦃f : Float64⦄ where
    settle_trades-Ends :
        (is_buy : Bool) (ts : List Trade) (sums : Sums) (s : Session)
        → P s.db
        → Ends P (settle_trades is_buy ts sums) s
    unfolding settle_trades settle_seller settle_buyer
    settle_trades-Ends true [] sums s v = v
    settle_trades-Ends false [] sums s v = v
    settle_trades-Ends true (t ∷ ts) sums s v =
        Ends-bind P (settle_seller t) (λ _. settle_trades true ts _) s
          (Ends-bind P (debit_balance_tx t.sell_order.user_id t.base_asset t.quantity)
            (λ _. credit_usd_tx t.sell_order.user_id (paid t)) s
            (debit_balance_tx-Ends P kept t.sell_order.user_id t.base_asset t.quantity s v)
            λ _ s' v'. credit_usd_tx-Ends P kept t.sell_order.user_id (paid t) s' v')
          λ _ s' v'. settle_trades-Ends true ts _ s' v'
    settle_trades-Ends false (t ∷ ts) sums s v =
        Ends-bind P (settle_buyer t) (λ _. settle_trades false ts _) s
          (Ends-bind P (credit_balance_tx t.buy_order.user_id t.base_asset t.quantity)
            (λ _. debit_usd_tx t.buy_order.user_id (paid t)) s
            (credit_balance_tx-Ends P kept t.buy_order.user_id t.base_asset t.quantity s v)
            λ _ s' v'. debit_usd_tx-Ends P kept t.buy_order.user_id (paid t) s' v')
          λ _ s' v'. settle_trades-Ends false ts _ s' v'

    settle_incoming-Ends :
        (o : Order) (base : String) (sums : Sums) (s : Session)
        → P s.db
        → Ends P (settle_incoming o base sums) s
    unfolding settle_incoming settle_incoming_buy settle_incoming_sell
    settle_incoming-Ends o base sums s v = elim (Bool-cases (str_eq o.side buy)) [
      | inl h ↦ rw h (
          Ends-bind P (credit_balance_tx o.user_id base sums.credit)
            (λ _.
              debit_usd_tx o.user_id (column sums.debit)
              >> unless (not (str_eq o.order_type market)) (unlock_usd_tx o.user_id o.price))
            s (credit_balance_tx-Ends P kept o.user_id base sums.credit s v)
            λ _ s₁ v₁.
              Ends-bind P (debit_usd_tx o.user_id (column sums.debit))
                (λ _. unless (not (str_eq o.order_type market)) (unlock_usd_tx o.user_id o.price))
                s₁ (debit_usd_tx-Ends P kept o.user_id (column sums.debit) s₁ v₁)
                λ _ s₂ v₂.
                  unless-Ends P (not (str_eq o.order_type market)) _ s₂ v₂
                    (unlock_usd_tx-Ends P kept o.user_id o.price s₂ v₂))
      | inr h ↦ rw h (
          Ends-bind P (credit_usd_tx o.user_id (column sums.credit))
            (λ _.
              debit_balance_tx o.user_id base sums.debit
              >> unless (not (str_eq o.order_type market))
                  (unlock_balance_tx o.user_id base (remaining o)))
            s (credit_usd_tx-Ends P kept o.user_id (column sums.credit) s v)
            λ _ s₁ v₁.
              Ends-bind P (debit_balance_tx o.user_id base sums.debit)
                (λ _.
                  unless (not (str_eq o.order_type market))
                    (unlock_balance_tx o.user_id base (remaining o)))
                s₁ (debit_balance_tx-Ends P kept o.user_id base sums.debit s₁ v₁)
                λ _ s₂ v₂.
                  unless-Ends P (not (str_eq o.order_type market)) _ s₂ v₂
                    (unlock_balance_tx-Ends P kept o.user_id base (remaining o) s₂ v₂))
    ]

    pub apply_order_result_to_db_tx-Ends :
        (result : OrderResult) (s : Session)
        → P s.db
        → Ends P (apply_order_result_to_db_tx result) s
    unfolding apply_order_result_to_db_tx settle_all
    apply_order_result_to_db_tx-Ends result s v =
        let o = result.incoming_order in
        let base = result.base_asset in
        let update = update_order_status_and_quantity_tx o.id o.status o.filled_quantity in
        Ends-bind P (insert_trades result.trades)
          (λ ts. update_others o.id result.updated_orders >> (update >> settle_all o base ts)) s
          (insert_trades-Ends result.trades s v)
          λ ts s₁ v₁.
            Ends-bind P (update_others o.id result.updated_orders)
              (λ _. update >> settle_all o base ts) s₁
              (update_others-Ends o.id result.updated_orders s₁ v₁)
              λ _ s₂ v₂.
                Ends-bind P update (λ _. settle_all o base ts) s₂
                  (update_order-Ends o.id o.status o.filled_quantity s₂ v₂)
                  λ _ s₃ v₃.
                    Ends-bind P (settle_trades (str_eq o.side buy) ts no_sums)
                      (settle_incoming o base) s₃
                      (settle_trades-Ends (str_eq o.side buy) ts no_sums s₃ v₃)
                      λ sums s₄ v₄. settle_incoming-Ends o base sums s₄ v₄
