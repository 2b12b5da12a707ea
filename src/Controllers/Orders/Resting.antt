-- ===== src/Controllers/Orders/Resting.antt =====
-- `CreateOrder` of a LIMIT order that meets no level which crosses it.
use cex_go.Prelude.{
  ℕ, String, Bool, Bool-cases, ◌≡◌, refl, ap, false, Option, none, some, List, [], ◌∷◌, All, str_eq,
  inl, inr, arith,
}
use cex_go.Prelude.Int.{ℤ, pos}
use cex_go.Float.{Float64, IsNumeric, column_zero}
use cex_go.Models.{Order, Trade, CreateOrderRequest, limit, market, buy}
use cex_go.Database.{Db, OrderRow, Session, Tick, ok, ◌>>◌, pure, order_check}
use cex_go.Database.Table.{select, select-update_self}
use cex_go.Database.Statement.{exec_insert}
use cex_go.Database.Ensures.{Ensures, Ensures-mono, Ensures-bind, exec_update-Ensures, IsUpdated}
use cex_go.Database.Fresh.{IsFresh, exec_insert-Fresh, select-append, select-none}
use cex_go.Redis.{Server}
use cex_go.Queries.Balance.{credit_balance_tx, credit_usd_tx, debit_usd_tx, debit_balance_tx}
use cex_go.Queries.Balance.Restoring.{SameAccounts}
use cex_go.Queries.Order.{
  create_order_tx, new_order_row, same_order_key, order_known, put_orders, of_order, stamp,
  scan_order, update_order_status_and_quantity_tx,
}
use cex_go.Matching.{
  OrderResult, Read, no_sums, is_unfilled, fill_against_level, settle_all, settle_trades,
  settle_incoming, settle_incoming_buy, settle_incoming_sell, insert_trades, update_others,
  apply_order_result_to_db_tx, match_while, match_limit_orders, limit_level, limit_status,
  with_status, empty_result,
}
use cex_go.Controllers.Orders.{match_order, enter_order}

-- No read of the book finds a level that crosses.
match_while-none :
    {Store : Type 0} (test : Order → Bool) (next : Order → Store → Option Order)
    (fill : ℤ → Order → Order → Order × Order × Trade) (o : Order) (result : OrderResult)
    (reads : List (Read Store))
    → All (λ r. next o r.store ≡ none) reads
    → match_while test next fill o result reads ≡ result
unfolding match_while
match_while-none test next fill o result [] h = refl
match_while-none test next fill o result (r ∷ rs) (e, _) = elim (Bool-cases (test o)) [
  | inl k ↦ rw (k, match_while, e, match_while) refl
  | inr k ↦ rw (k, match_while) refl
]

settle_incoming-idle :
    ⦃f : Float64⦄ (numeric : IsNumeric f) (o : Order) (base : String) (s : Session)
    → o.order_type ≡ limit
    → settle_incoming o base no_sums s ≡ (ok tt, s)
unfolding settle_incoming settle_incoming_buy settle_incoming_sell credit_balance_tx credit_usd_tx
    debit_usd_tx debit_balance_tx
settle_incoming-idle numeric o base s k = elim (Bool-cases (str_eq o.side buy)) [
  | inl e ↦ rw (e, k, column_zero numeric) refl
  | inr e ↦ rw (e, k, column_zero numeric) refl
]

module _ (req : CreateOrderRequest) (user : ℕ) where
  abbrev pub row_of : Tick → OrderRow
  row_of = new_order_row user req.market_id req.order_type req.side req.price req.quantity

  -- The row of the order as it was inserted, but for its status; the accounts and markets are as before.
  abbrev pub IsResting : Db → ℕ → Db → Type 0
  IsResting before id db =
      (t : Tick) × (status : String) × (t.uuid ≡ id)
      × (select (of_order id) db.orders ≡ some (record (row_of t) { status = status }))
      × SameAccounts before db
      × (db.markets ≡ before.markets)

module _ (server : Server) (req : CreateOrderRequest) where
  open server use {Store}

  -- No read of the book finds a level for an order of the request.
  abbrev pub FindsNone : List (Read Store) → Type 0
  FindsNone reads =
      (o : Order)
      → o.market_id ≡ req.market_id
      → o.side ≡ req.side
      → o.price ≡ req.price
      → All (λ r. limit_level server o r.store ≡ none) reads

module _ (server : Server) ⦃f : Float64⦄ (req : CreateOrderRequest) (user : ℕ) (clock : ℤ) where
  open server use {Store}

  abbrev IsEntered : Db → Order → Db → Type 0
  IsEntered before o db =
      (t : Tick) × (o ≡ stamp clock (scan_order (row_of req user t)))
      × (select (of_order t.uuid) db.orders ≡ some (row_of req user t))
      × SameAccounts before db
      × (db.markets ≡ before.markets)

  inserted-IsEntered :
      (before : Db) (row : OrderRow) (db : Db)
      → IsFresh
          (λ db. db.orders)
          put_orders
          (row_of req user)
          order_check
          same_order_key
          order_known
          before
          row
          db
      → IsEntered before (stamp clock (scan_order row)) db
  inserted-IsEntered before row db (t, e, n, d) = (
    t,
    rw e refl,
    rw (d, e)
        (select-append (of_order t.uuid) (row_of req user t) before.orders
          (select-none (same_order_key (row_of req user t)) (of_order t.uuid) before.orders
            (λ q k. ground (arith, k)) (rw e at n))
          (ground arith)),
    (rw d refl, rw d refl),
    rw d refl,
  )

  create_order_tx-IsEntered :
      (s : Session)
      → Ensures (IsEntered s.db) (
          create_order_tx clock user req.market_id req.order_type req.side req.price req.quantity s)
  unfolding create_order_tx
  create_order_tx-IsEntered s =
      Ensures-bind
        (IsFresh (λ db. db.orders) put_orders (row_of req user) order_check same_order_key
          order_known s.db)
        (IsEntered s.db)
        (exec_insert (λ db. db.orders) put_orders (row_of req user) order_check same_order_key
          order_known)
        (λ row. pure (stamp clock (scan_order row))) s
        (exec_insert-Fresh (λ db. db.orders) put_orders (row_of req user) order_check same_order_key
          order_known s)
        λ row s' k. inserted-IsEntered s.db row s'.db k

  -- Nothing is settled where nothing was matched.
  abbrev unmatched : Order → OrderResult
  unmatched o = with_status limit_status (empty_result o req.base_asset req.quote_asset)

  set_open-IsResting :
      (before : Db) (t : Tick) (status : String) (s : Session)
      → select (of_order t.uuid) s.db.orders ≡ some (row_of req user t)
      → SameAccounts before s.db
      → s.db.markets ≡ before.markets
      → Ensures
          (λ _ db. IsResting req user before t.uuid db)
          (update_order_status_and_quantity_tx t.uuid status (pos 0) s)
  unfolding update_order_status_and_quantity_tx
  set_open-IsResting before t status s e (us, bs) ms =
      let set : OrderRow → OrderRow = λ r. record r { status = status; filled_quantity = pos 0 } in
      Ensures-mono
        (λ _ db. IsUpdated (λ db. db.orders) put_orders (of_order t.uuid) set order_check s.db db)
        (λ _ db. IsResting req user before t.uuid db)
        (update_order_status_and_quantity_tx t.uuid status (pos 0) s)
        (exec_update-Ensures (λ db. db.orders) put_orders (of_order t.uuid) set order_check s)
        λ _ db u. elim u [
          | inl (n, _) ↦ absurd (cc (n, e))
          | inr (r, k, _, d) ↦
              let same : row_of req user t ≡ r = cc (k, e) in
              (
                t,
                status,
                refl,
                rw d (
                    select-update_self (of_order t.uuid) set s.db.orders (row_of req user t) e
                      (ground arith)),
                (rw d us, rw d bs),
                rw d ms,
              )
        ]

  abbrev placed : Tick → Order
  placed t = stamp clock (scan_order (row_of req user t))

  module _ (numeric : IsNumeric f) (kind : req.order_type ≡ limit) where
    match_order-unmatched :
        (t : Tick) (reads : List (Read Store))
        → FindsNone server req reads
        → match_order server req (placed t) reads ≡ unmatched (placed t)
    unfolding match_order match_limit_orders
    match_order-unmatched t reads h =
        let no_market : str_eq req.order_type market ≡ false = rw kind refl in
        rw no_market (
          ap (with_status limit_status) (
            match_while-none is_unfilled (limit_level server)
              (fill_against_level req.base_asset req.quote_asset) (placed t)
              (empty_result (placed t) req.base_asset req.quote_asset) reads
              (h (placed t) refl refl refl)))

    unmatched-IsResting :
        (before : Db) (t : Tick) (s : Session)
        → select (of_order t.uuid) s.db.orders ≡ some (row_of req user t)
        → SameAccounts before s.db
        → s.db.markets ≡ before.markets
        → Ensures
            (λ _ db. IsResting req user before t.uuid db)
            (apply_order_result_to_db_tx (unmatched (placed t)) s)
    unfolding apply_order_result_to_db_tx insert_trades update_others settle_all settle_trades
    unmatched-IsResting before t s e same ms =
        let status : String = limit_status (placed t) in
        let incoming : Order = record (placed t) { status = status } in
        Ensures-bind (λ _ db. IsResting req user before t.uuid db)
          (λ _ db. IsResting req user before t.uuid db)
          (update_order_status_and_quantity_tx t.uuid status (pos 0))
          (λ _. settle_incoming incoming req.base_asset no_sums) s
          (set_open-IsResting before t status s e same ms)
          λ _ s' k. rw (settle_incoming-idle numeric incoming req.base_asset s' kind) k

    pub enter_order-IsResting :
        (reads : List (Read Store)) (s : Session)
        → FindsNone server req reads
        → Ensures
            (λ a db. IsResting req user s.db a.0 db)
            (enter_order server req user clock reads s)
    unfolding enter_order
    enter_order-IsResting reads s h =
        Ensures-bind (IsEntered s.db) (λ a db. IsResting req user s.db a.0 db)
          (create_order_tx clock user req.market_id req.order_type req.side req.price req.quantity)
          (λ o.
            apply_order_result_to_db_tx (match_order server req o reads)
            >> pure (o.id, match_order server req o reads))
          s (create_order_tx-IsEntered s)
          λ o s' (t, e, k, same, ms).
            rw (e, match_order-unmatched t reads h)
              (Ensures-bind (λ _ db. IsResting req user s.db t.uuid db)
                (λ a db. IsResting req user s.db a.0 db)
                (apply_order_result_to_db_tx (unmatched (placed t)))
                (λ _. pure (t.uuid, unmatched (placed t))) s'
                (unmatched-IsResting s.db t s' k same ms) λ _ s'' k'. k')
