-- ===== src/Controllers/Orders/Entry.antt =====
-- What entering an order does to the database: the steps of `CreateOrder` inside its transaction.
use cex_go.Prelude.{
  All-mono, ℕ, String, Bool, Bool-cases, ◌≡◌, refl, sym, true, false, inl, inr, List, [], ◌∷◌, ◌++◌,
  All-append, str_eq, eq_iff, arith, ap, ◌∙◌, ◌&&◌,
}
use cex_go.Prelude.Int.{ℤ, pos, ◌≤ℤ◌, int_laws, ltb_ℤ, ◌+ℤ◌}
use cex_go.Float.{Float64, IsNumeric}
use cex_go.Models.{Order, CreateOrderRequest, buy, sell, market}
use cex_go.Database.{Db, OrderRow, Session, Result, ok, err, order_check, pure, ◌>>◌}
use cex_go.Database.Statement.{exists, exec_insert}
use cex_go.Database.Ensures.{
  Ensures, Ensures-mono, Ensures-bind, exec_insert-Ensures, guarded_update-Ensures, IsInserted,
}
use cex_go.Redis.{Server}
use cex_go.Queries.Balance.{
  of_user, lock_balance_tx, guarded_user, guarded_balance, of_asset, put_users, put_balances, usd,
  lock_usd_row, lock_row,
}
use cex_go.Queries.Balance.Totals.{Moved, Moved-trans}
use cex_go.Queries.Order.{
  create_order_tx, order_known, put_orders, stamp, scan_order, new_order_row, same_order_key,
}
use cex_go.Queries.Order.Effects.{OwnersExist, same-Moved}
use cex_go.Matching.{OrderResult, Read, match_market_orders, apply_order_result_to_db_tx}
use cex_go.Matching.Records.{AllIn, AllWhole}
use cex_go.Matching.Limits.{match_limit_orders-fills, IsTradeOf}
use cex_go.Matching.Market.{
  match_market_sell-fills, match_market_buy-spends, IsSaleOf, IsPurchaseOf,
}
use cex_go.Matching.Conservation.{apply_order_result_to_db_tx-conserves}
use cex_go.Controllers.Orders.{match_order, enter_order}
use cex_go.Matching.Moves.{Moved-as}

pub Ensures-and :
    {A : Type 0} (P Q : A → Db → Type 0) (r : Result A × Session)
    → Ensures P r
    → Ensures Q r
    → Ensures (λ a db. P a db × Q a db) r
Ensures-and P Q (ok a, s) p q = (p, q)
Ensures-and P Q (err e, s) p q = tt

pub Moved-twice :
    (a : String) (x y z : Db)
    → Moved a (pos 0) (pos 0) x y
    → Moved a (pos 0) (pos 0) y z
    → Moved a (pos 0) (pos 0) x z
Moved-twice a x y z h k =
    Moved-as a (pos 0 +ℤ pos 0) (pos 0 +ℤ pos 0) (pos 0) (pos 0) x z (omega int_laws)
      (omega int_laws) (Moved-trans a (pos 0) (pos 0) (pos 0) (pos 0) x y z h k)

-- Locking leaves the orders alone.
pub lock_balance_tx-orders :
    (user : ℕ) (asset : String) (amount : ℤ) (s : Session)
    → Ensures (λ _ db. db.orders ≡ s.db.orders) (lock_balance_tx user asset amount s)
unfolding lock_balance_tx guarded_user guarded_balance
lock_balance_tx-orders user asset amount s = elim (Bool-cases (str_eq asset usd)) [
  | inl h ↦ rw h (
      Ensures-mono _ (λ _ db. db.orders ≡ s.db.orders) _
        (guarded_update-Ensures (λ db. db.users) put_users (of_user user) _ (lock_usd_row amount) _
          s)
        λ _ db (_, _, _, _, e). rw e refl)
  | inr h ↦ rw h (
      Ensures-mono _ (λ _ db. db.orders ≡ s.db.orders) _
        (guarded_update-Ensures (λ db. db.balances) put_balances (of_asset user asset) _
          (lock_row amount) _ s)
        λ _ db (_, _, _, _, e). rw e refl)
]

-- An order as it was asked for, with nothing filled
abbrev pub IsFrom : String → ℤ → ℤ → Order → Type 0
IsFrom side price quantity o =
    (o.side ≡ side) × (o.price ≡ price) × (o.quantity ≡ quantity) × (o.filled_quantity ≡ pos 0)

-- The order that `CreateOrderTx` returns: open for its whole quantity, of a user who is there.
abbrev pub IsCreated : ℕ → String → ℤ → ℤ → Db → Order → Db → Type 0
IsCreated user side price quantity before o after =
    (o.user_id ≡ user)
    × (o.filled_quantity ≤ℤ o.quantity)
    × (exists (of_user user) before.users ≡ true)
    × (after.users ≡ before.users)
    × (after.balances ≡ before.balances)
    × (OwnersExist before → OwnersExist after)
    × IsFrom side price quantity o

left_true : (a b : Bool) → (a && b) ≡ true → a ≡ true
left_true a b h = ground arith

order_check-positive : (r : OrderRow) → order_check r ≡ true → pos 0 ≤ℤ r.quantity
unfolding order_check
order_check-positive r h = elim (Bool-cases (ltb_ℤ (pos 0) r.quantity)) [
  | inl k ↦ ground arith
  | inr k ↦ absurd (cc (rw k at h))
]

inserted-IsCreated :
    (clock : ℤ) (user : ℕ) (side : String) (price quantity : ℤ) (row : OrderRow) (before after : Db)
    → row.user_id ≡ user
    → row.filled_quantity ≡ pos 0
    → (row.side ≡ side) × (row.price ≡ price) × (row.quantity ≡ quantity)
    → order_check row ≡ true
    → order_known row before ≡ true
    → after ≡ put_orders before (before.orders ++ (row ∷ []))
    → IsCreated user side price quantity before (stamp clock (scan_order row)) after
inserted-IsCreated clock user side price quantity row before after u q (x, y, z) c k e =
    let there : exists (of_user row.user_id) before.users ≡ true =
      left_true (exists (of_user row.user_id) before.users) _ k in
    (
      u,
      rw q (order_check-positive row c),
      rw u at there,
      rw e refl,
      rw e refl,
      λ owners. rw e (
          All-append (λ (r : OrderRow). exists (of_user r.user_id) before.users ≡ true)
            before.orders (row ∷ []) owners (there, tt)),
      (x, y, z, q),
    )

pub create_order_tx-Ensures :
    (clock : ℤ) (user market_id : ℕ) (order_type side : String) (price quantity : ℤ) (s : Session)
    → Ensures
        (IsCreated user side price quantity s.db)
        (create_order_tx clock user market_id order_type side price quantity s)
unfolding create_order_tx order_check
create_order_tx-Ensures clock user market_id order_type side price quantity s =
    let make = new_order_row user market_id order_type side price quantity in
    Ensures-bind (IsInserted (λ db. db.orders) put_orders make order_check order_known s.db)
      (IsCreated user side price quantity s.db)
      (exec_insert (λ db. db.orders) put_orders make order_check same_order_key order_known)
      (λ row. pure (stamp clock (scan_order row))) s
      (exec_insert-Ensures (λ db. db.orders) put_orders make order_check same_order_key order_known
        s)
      λ row s' (t, e, c, k, d).
        inserted-IsCreated clock user side price quantity row s.db s'.db (rw e refl) (rw e refl)
          (rw e refl, rw e refl, rw e refl) c k d

sell_not_buy : (side : String) → str_eq side sell ≡ true → str_eq side buy ≡ false
sell_not_buy side h = let e : side ≡ sell = (eq_iff side sell).0 h in rw e refl

module _ (server : Server) ⦃f : Float64⦄ where
  open server use {Store}

  -- All trades of a match are in the result's base asset, and its order is still the user's.
  match_order-AllIn :
      (req : CreateOrderRequest) (o : Order) (reads : List (Read Store))
      → o.filled_quantity ≤ℤ o.quantity
      → let result = match_order server req o reads in
        AllIn result.base_asset result.trades × (result.incoming_order.user_id ≡ o.user_id)
  unfolding match_order match_market_orders
  match_order-AllIn req o reads within = elim (Bool-cases (str_eq req.order_type market)) [
    | inr h ↦ rw h (
        let (e, _, _, all, b) =
          match_limit_orders-fills server o req.base_asset req.quote_asset reads within in
        (All-mono (IsTradeOf o req.base_asset) _ _ (λ t k. k.0 ∙ sym b) all, ap (λ x. x.user_id) e))
    | inl h ↦ elim (Bool-cases (str_eq o.side sell)) [
      | inl k ↦
          rw (h, k)
            (let (e, _, all, b) =
                match_market_sell-fills server o req.base_asset req.quote_asset reads
                  (sell_not_buy o.side k) within in
              (
                All-mono (IsSaleOf o req.base_asset) _ _ (λ t k. k.0 ∙ sym b) all,
                ap (λ x. x.user_id) e,
              ))
      | inr k ↦
          rw (h, k)
            (let (_, _, e, all, b) =
                match_market_buy-spends server o req.base_asset req.quote_asset reads in
              (All-mono (IsPurchaseOf o req.base_asset) _ _ (λ t k. k.0 ∙ sym b) all, e))
    ]
  ]

  -- Every trade of the match of an order as it is asked for costs what eight decimals hold.
  abbrev pub MatchesWhole : CreateOrderRequest → List (Read Store) → Type 0
  MatchesWhole req reads =
      (o : Order)
      → IsFrom req.side req.price req.quantity o
      → AllWhole (match_order server req o reads).trades

  -- Entering an order keeps the totals.
  pub enter_order-Moved :
      (a : String) (numeric : IsNumeric f) (req : CreateOrderRequest) (user : ℕ) (clock : ℤ)
      (reads : List (Read Store)) (s : Session)
      → MatchesWhole req reads
      → OwnersExist s.db
      → Ensures
          (λ _ db. Moved a (pos 0) (pos 0) s.db db)
          (enter_order server req user clock reads s)
  unfolding enter_order
  enter_order-Moved a numeric req user clock reads s exact owners =
      let Q : ℕ × OrderResult → Db → Type 0 = λ _ db. Moved a (pos 0) (pos 0) s.db db in
      Ensures-bind (IsCreated user req.side req.price req.quantity s.db) Q
        (create_order_tx clock user req.market_id req.order_type req.side req.price req.quantity)
        (λ o.
          apply_order_result_to_db_tx (match_order server req o reads)
          >> pure (o.id, match_order server req o reads))
        s
        (create_order_tx-Ensures clock user req.market_id req.order_type req.side req.price
          req.quantity s)
        λ o s' (mine, within, there, us, bs, owned, from).
          let result = match_order server req o reads in
          let (all, e) = match_order-AllIn req o reads within in
          let owner : exists (of_user result.incoming_order.user_id) s'.db.users ≡ true =
            rw (e, mine, us) there in
          Ensures-bind (λ _ db. Moved a (pos 0) (pos 0) s.db db) Q
            (apply_order_result_to_db_tx result) (λ _. pure (o.id, result)) s'
            (Ensures-mono (λ _ db. Moved a (pos 0) (pos 0) s'.db db)
              (λ _ db. Moved a (pos 0) (pos 0) s.db db) (apply_order_result_to_db_tx result s')
              (apply_order_result_to_db_tx-conserves a numeric result s' (owned owners) owner all
                (exact o from))
              λ _ db k. Moved-twice a s.db s'.db db (same-Moved a s.db s'.db us bs) k)
            λ _ s'' k. k
