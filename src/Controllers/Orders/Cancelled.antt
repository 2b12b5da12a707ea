-- ===== src/Controllers/Orders/Cancelled.antt =====
-- `CancelOrder` in its transaction: the row of the order that it returns.
use cex_go.Prelude.{
  ℕ, String, Bool, Bool-cases, ◌≡◌, refl, Option, none, some, inl, inr, str_eq, arith, All, List,
  [], ◌∷◌, map,
}
use cex_go.Prelude.Int.{ℤ, pos, ltb_ℤ, leb_ℤ}
use cex_go.Float.{Float64, product, column}
use cex_go.Models.{Order, Market, sell, cancelled}
use cex_go.Database.{
  Db, OrderRow, UserRow, BalanceRow, user_check, balance_check, Session, round_trip, order_check,
  ◌>>◌, pure,
}
use cex_go.Database.Table.{select, select-holds, select-update_self}
use cex_go.Database.Ensures.{
  Ensures, Ensures-mono, Ensures-bind, Ensures-unless, round_trip-Ensures, guarded_update-Ensures,
  IsGuarded,
}
use cex_go.Redis.{Server}
use cex_go.Redis.Invariant.{HasPlace}
use cex_go.Queries.Balance.{
  unlock_balance_tx, unlock_usd_tx, guarded_user, guarded_balance, put_users, put_balances, of_user,
  of_asset, unlock_row, unlock_usd_row,
}
use cex_go.Queries.Order.{
  update_order_status_tx, store_status, set_status, join_order, joined, of_order, scan_order,
  of_market,
}
use cex_go.Queries.Order.Lists.{scanned}
use cex_go.Matching.{remaining}
use cex_go.Controllers.Orders.{release, cancel_in_tx}

abbrev SameOrders : Session → Unit {0} → Db → Type 0
SameOrders s _ db = db.orders ≡ s.db.orders

unlock_usd_tx-orders :
    (user : ℕ) (amount : ℤ) (s : Session) → Ensures (SameOrders s) (unlock_usd_tx user amount s)
unfolding unlock_usd_tx guarded_user
unlock_usd_tx-orders user amount s =
    let short : UserRow → Bool = λ r. ltb_ℤ r.locked_balance amount in
    let f = unlock_usd_row amount in
    Ensures-unless (leb_ℤ amount (pos 0)) (guarded_user user short f) s (SameOrders s) (λ _. refl)
      λ _.
        Ensures-mono
          (λ _ db. IsGuarded (λ db. db.users) put_users (of_user user) short f user_check s.db db)
          (SameOrders s) (guarded_user user short f s)
          (guarded_update-Ensures (λ db. db.users) put_users (of_user user) short f user_check s)
          λ _ db (_, _, _, _, e). rw e refl

unlock_balance_tx-orders :
    (user : ℕ) (asset : String) (amount : ℤ) (s : Session)
    → Ensures (SameOrders s) (unlock_balance_tx user asset amount s)
unfolding unlock_balance_tx guarded_balance
unlock_balance_tx-orders user asset amount s =
    let short : BalanceRow → Bool = λ r. ltb_ℤ r.locked amount in
    let f = unlock_row amount in
    Ensures-unless (leb_ℤ amount (pos 0)) (guarded_balance user asset short f) s (SameOrders s)
      (λ _. refl)
      λ _.
        Ensures-mono
          (λ _ db.
            IsGuarded (λ db. db.balances) put_balances (of_asset user asset) short f balance_check
              s.db db)
          (SameOrders s) (guarded_balance user asset short f s)
          (guarded_update-Ensures (λ db. db.balances) put_balances (of_asset user asset) short f
            balance_check s)
          λ _ db (_, _, _, _, e). rw e refl

-- The row of the order says that it is cancelled.
abbrev pub IsCancelled : ℕ → Db → Type 0
IsCancelled id db =
    (r : OrderRow) × (select (of_order id) db.orders ≡ some r) × (r.status ≡ cancelled)

module _ (place : ℕ → ℕ × String) where
  -- The order that comes back is the one of the id, and its row says that it is cancelled.
  abbrev pub Cancelled : ℕ → Order → Db → Type 0
  Cancelled id o db = (o.id ≡ id) × HasPlace place o × IsCancelled id db

  selected-HasPlace :
      (p : OrderRow → Bool) (rows : List OrderRow) (r : OrderRow)
      → All (HasPlace place) (map scan_order rows)
      → select p rows ≡ some r
      → HasPlace place (scan_order r)
  unfolding select
  selected-HasPlace p [] r h e = absurd (cc e)
  selected-HasPlace p (q ∷ qs) r (h, hs) e = elim (Bool-cases (p q)) [
    | inl k ↦ let same : q ≡ r = ground (arith, k, e) in rw (← same) h
    | inr k ↦ selected-HasPlace p qs r hs (rw k at e)
  ]

  store_status-Cancelled :
      (id : ℕ) (s : Session) (r : OrderRow) (m : Option Market)
      → select (of_order id) s.db.orders ≡ some r
      → HasPlace place (scan_order r)
      → Ensures (Cancelled id) (store_status id cancelled (joined (some r) m) s)
  store_status-Cancelled id s r none e h = tt
  store_status-Cancelled id s r (some m) e h =
      elim (Bool-cases (order_check (set_status cancelled r))) [
        | inr k ↦ rw k tt
        | inl k ↦
            let own = select-holds (of_order id) s.db.orders r e in
            rw k (
              ground (arith, own),
              h,
              (
                set_status cancelled r,
                select-update_self (of_order id) (set_status cancelled) s.db.orders r e own,
                refl,
              ),
            )
      ]

  joined-Cancelled :
      (id : ℕ) (s : Session) (found : Option OrderRow)
      → select (of_order id) s.db.orders ≡ found
      → All (HasPlace place) (scanned s.db)
      → Ensures (Cancelled id) (
          store_status id cancelled
            (elim found [
              | none ↦ none
              | some r ↦ joined (some r) (select (of_market r.market_id) s.db.markets)
            ])
            s)
  joined-Cancelled id s none e h = tt
  joined-Cancelled id s (some r) e h =
      store_status-Cancelled id s r (select (of_market r.market_id) s.db.markets) e
        (selected-HasPlace (of_order id) s.db.orders r h e)

  update_order_status_tx-Cancelled :
      (id : ℕ) (s : Session)
      → All (HasPlace place) (scanned s.db)
      → Ensures (Cancelled id) (update_order_status_tx id cancelled s)
  unfolding update_order_status_tx
  update_order_status_tx-Cancelled id s h =
      Ensures-bind (λ _ db. db ≡ s.db) (Cancelled id) round_trip
        (λ _ s'. store_status id cancelled (join_order id s'.db) s') s (round_trip-Ensures s)
        λ _ s' e. joined-Cancelled id s' (select (of_order id) s'.db.orders) refl (rw e h)

module _ (server : Server) ⦃f : Float64⦄ (place : ℕ → ℕ × String) where
  open server use {Store}

  release-orders :
      (o : Order) (s : Session) → Ensures (λ _ db. db.orders ≡ s.db.orders) (release server o s)
  unfolding release
  release-orders o s = elim (Bool-cases (str_eq o.side sell)) [
    | inl h ↦ rw h (unlock_balance_tx-orders o.user_id o.base_asset (remaining o) s)
    | inr h ↦ rw h (unlock_usd_tx-orders o.user_id (column (product o.price (remaining o))) s)
  ]

  pub cancel_in_tx-Cancelled :
      (id : ℕ) (s : Session)
      → All (HasPlace place) (scanned s.db)
      → Ensures (Cancelled place id) (cancel_in_tx server id s)
  unfolding cancel_in_tx
  cancel_in_tx-Cancelled id s h =
      Ensures-bind (Cancelled place id) (Cancelled place id) (update_order_status_tx id cancelled)
        (λ o. release server o >> pure o) s (update_order_status_tx-Cancelled place id s h)
        λ o s' (i, p, (r, e, c)).
          Ensures-bind (λ _ db. db.orders ≡ s'.db.orders) (Cancelled place id) (release server o)
            (λ _. pure o) s' (release-orders o s') λ _ s'' k. (i, p, (r, rw k e, c))
