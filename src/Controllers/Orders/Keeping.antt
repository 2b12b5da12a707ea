-- ===== src/Controllers/Orders/Keeping.antt =====
-- What `CreateOrder` and `CancelOrder` keep of the tables.
use cex_go.Prelude.{ℕ, String, ◌≡◌, refl, Bool-cases, Option, none, some, List, inl, inr, str_eq}
use cex_go.Prelude.Int.{ℤ}
use cex_go.Float.{Float64, product, column}
use cex_go.Models.{Order, Market, CreateOrderRequest, sell, cancelled}
use cex_go.Database.{Db, OrderRow, Session, round_trip, order_check, pure, ◌>>◌}
use cex_go.Database.Statement.{exec_insert}
use cex_go.Database.Ensures.{Ensures-mono, Ensures-bind, exec_insert-Ensures, round_trip-Ensures}
use cex_go.Redis.{Server}
use cex_go.Queries.Kept.{IsKept, Ends, Ends-bind}
use cex_go.Queries.Balance.{lock_balance_tx}
use cex_go.Queries.Balance.Keeping.{
  lock_balance_tx-Ends, unlock_balance_tx-Ends, unlock_usd_tx-Ends,
}
use cex_go.Queries.Order.{
  create_order_tx, update_order_status_tx, store_status, set_status, join_order, put_orders,
  of_order, new_order_row, same_order_key, order_known, stamp, scan_order,
}
use cex_go.Matching.{Read, remaining, apply_order_result_to_db_tx}
use cex_go.Matching.Keeping.{apply_order_result_to_db_tx-Ends}
use cex_go.Controllers.Handlers.{Outcome, refused, done, answer}
use cex_go.Controllers.Orders.{
  prepare, asset_to_lock, locked_amount, match_order, enter_order, place_order, create_order,
  release, cancel_in_tx, cancel_order,
}
use cex_go.Controllers.Orders.Cancel.{cancel_order-Answered}
use cex_go.Controllers.Orders.Money.{
  Answered, WhenDone, answer-WhenDone, after-WhenDone, create_order-Answered,
}

module _ (P : Db → Type 0) (kept : IsKept P) where
  always :
      {A : Type 0} (before : Db) (o : Outcome A) (db : Db)
      → P before
      → Answered P before o db
      → P db
  always before (refused _) db v h = rw h v
  always before (done _) db v h = h

  create_order_tx-Ends :
      (clock : ℤ) (user market_id : ℕ) (order_type side : String) (price quantity : ℤ) (s : Session)
      → P s.db
      → Ends P (create_order_tx clock user market_id order_type side price quantity) s
  unfolding create_order_tx
  create_order_tx-Ends clock user market_id order_type side price quantity s v =
      let make = new_order_row user market_id order_type side price quantity in
      Ends-bind P
        (exec_insert (λ db. db.orders) put_orders make order_check same_order_key order_known)
        (λ row. pure (stamp clock (scan_order row))) s
        (Ensures-mono _ (λ _ db. P db) _
          (exec_insert-Ensures (λ db. db.orders) put_orders make order_check same_order_key
            order_known s)
          λ row db (_, _, _, k, e). rw e (kept.adds_order s.db row k v))
        λ _ _ v'. v'

  store_status-Ends :
      (id : ℕ) (status : String) (o : Option (OrderRow × Market)) (s : Session)
      → P s.db
      → Ends P (store_status id status o) s
  store_status-Ends id status none s v = tt
  store_status-Ends id status (some (r, m)) s v =
      elim (Bool-cases (order_check (set_status status r))) [
        | inl h ↦ rw h (kept.changes_order s.db (of_order id) (set_status status) (λ q. refl) v)
        | inr h ↦ rw h tt
      ]

  update_order_status_tx-Ends :
      (id : ℕ) (status : String) (s : Session)
      → P s.db
      → Ends P (update_order_status_tx id status) s
  unfolding update_order_status_tx
  update_order_status_tx-Ends id status s v =
      Ensures-bind (λ _ db. db ≡ s.db) (λ _ db. P db) round_trip
        (λ _ s'. store_status id status (join_order id s'.db) s') s (round_trip-Ensures s)
        λ _ s' e. store_status-Ends id status (join_order id s'.db) s' (rw e v)

  module _ (server : Server) ⦃f : Float64⦄ where
    open server use {Store}

    enter_order-Ends :
        (req : CreateOrderRequest) (user : ℕ) (clock : ℤ) (reads : List (Read Store)) (s : Session)
        → P s.db
        → Ends P (enter_order server req user clock reads) s
    unfolding enter_order
    enter_order-Ends req user clock reads s v =
        Ends-bind P
          (create_order_tx clock user req.market_id req.order_type req.side req.price req.quantity)
          (λ o.
            apply_order_result_to_db_tx (match_order server req o reads)
            >> pure (o.id, match_order server req o reads))
          s
          (create_order_tx-Ends clock user req.market_id req.order_type req.side req.price
            req.quantity s v)
          λ o s' v'.
            Ends-bind P (apply_order_result_to_db_tx (match_order server req o reads))
              (λ _. pure (o.id, match_order server req o reads)) s'
              (apply_order_result_to_db_tx-Ends P kept (match_order server req o reads) s' v')
              λ _ _ v''. v''

    place_order-WhenDone :
        (req : CreateOrderRequest) (user : ℕ) (m : Market) (clock : ℤ) (reads : List (Read Store))
        (s : Session)
        → P s.db
        → WhenDone P (place_order server req user m clock reads s)
    unfolding place_order
    place_order-WhenDone req user m clock reads s v =
        let lock = lock_balance_tx user (asset_to_lock req m) (locked_amount req) in
        after-WhenDone P P (answer 400 lock s)
          (λ _. answer 500 (enter_order server req user clock reads))
          (answer-WhenDone P 400 lock s
            (lock_balance_tx-Ends P kept user (asset_to_lock req m) (locked_amount req) s v))
          λ _ s' v'.
            answer-WhenDone P 500 (enter_order server req user clock reads) s'
              (enter_order-Ends req user clock reads s' v')

    release-Ends : (o : Order) (s : Session) → P s.db → Ends P (release server o) s
    unfolding release
    release-Ends o s v = elim (Bool-cases (str_eq o.side sell)) [
      | inl h ↦ rw h (unlock_balance_tx-Ends P kept o.user_id o.base_asset (remaining o) s v)
      | inr h ↦
          rw h (unlock_usd_tx-Ends P kept o.user_id (column (product o.price (remaining o))) s v)
    ]

    cancel_in_tx-Ends : (id : ℕ) (s : Session) → P s.db → Ends P (cancel_in_tx server id) s
    unfolding cancel_in_tx
    cancel_in_tx-Ends id s v =
        Ends-bind P (update_order_status_tx id cancelled) (λ o. release server o >> pure o) s
          (update_order_status_tx-Ends id cancelled s v)
          λ o s' v'.
            Ends-bind P (release server o) (λ _. pure o) s' (release-Ends o s' v') λ _ _ v''. v''

    -- Whatever `CreateOrder` answers, the database behind it has the property.
    pub create_order-keeps :
        (req : Option CreateOrderRequest) (user : Option ℕ) (clock : ℤ) (reads : List (Read Store))
        (st : Store) (s : Session)
        → P s.db
        → let (_, s', _) = create_order server req user clock reads st s in P s'.db
    create_order-keeps req user clock reads st s v =
        let (o, s', _) = create_order server req user clock reads st s in
        always s.db o s'.db v (
          create_order-Answered server P req user clock reads st s
            λ r _ u m s₁ e. place_order-WhenDone (prepare r) u m clock reads s₁ (rw e v))

    pub cancel_order-keeps :
        (id : ℕ) (st : Store) (s : Session)
        → P s.db
        → let (_, s', _) = cancel_order server id st s in P s'.db
    cancel_order-keeps id st s v =
        let (o, s', _) = cancel_order server id st s in
        always s.db o s'.db v
          (cancel_order-Answered server P id st s λ s₁ e. cancel_in_tx-Ends id s₁ (rw e v))
