-- ===== src/Matching/Settle.antt =====
-- `ApplyOrderResultToDBTx` and `ApplyOrderResultToRedis`: what a match does to the database, in the
-- caller's transaction, and to the order book.
use cex_go.Prelude.{
  ℕ, String, Bool, true, false, ◌&&◌, not, ◌==◌, List, [], ◌∷◌, str_eq, if◌then◌else◌,
}
use cex_go.Prelude.Int.{ℤ, pos, ◌+ℤ◌}
use cex_go.Float.{Float64, product, column}
use cex_go.Models.{Order, Trade, buy, limit, market, filled}
use cex_go.Database.{Tx, pure, unless, ◌>>=◌, ◌>>◌}
use cex_go.Queries.Balance.{
  credit_balance_tx, credit_usd_tx, debit_usd_tx, debit_balance_tx, unlock_usd_tx,
  unlock_balance_tx,
}
use cex_go.Queries.Order.{update_order_status_and_quantity_tx}
use cex_go.Queries.Trades.{insert_trade_tx}
use cex_go.Redis.{Server, update_order_in_redis, insert_order_to_redis}
use cex_go.Matching.Fill.{remaining}
use cex_go.Matching.Loop.{OrderResult}

-- The first loop
unfoldable pub insert_trades : List Trade → Tx (List Trade)
insert_trades [] = pure []
insert_trades (t ∷ ts) = do
  inserted ← insert_trade_tx t
  rest ← insert_trades ts
  pure (inserted ∷ rest)

-- The second loop, which leaves out the copies of the incoming order
unfoldable pub update_others : ℕ → List Order → Tx (Unit {0})
update_others incoming [] = pure tt
update_others incoming (o ∷ os) = do
  unless (o.id == incoming) (update_order_status_and_quantity_tx o.id o.status o.filled_quantity)
  update_others incoming os

-- The amounts that the incoming order's user is credited and debited in the end: units in 10^-8, and USD
-- in 10^-16, which no column has rounded yet
pub record Sums : Type 0 where
  pub credit : ℤ
  pub debit : ℤ

abbrev pub no_sums : Sums
no_sums = record { credit = pos 0; debit = pos 0 }

module _ ⦃f : Float64⦄ where
  abbrev pub cost : Trade → ℤ
  cost t = product t.price t.quantity

  -- What a column makes of it
  abbrev pub paid : Trade → ℤ
  paid t = column (cost t)

  -- One trade of an incoming buy order: the seller gives the base asset for USD.
  unfoldable pub settle_seller : Trade → Tx (Unit {0})
  settle_seller t = do
    debit_balance_tx t.sell_order.user_id t.base_asset t.quantity
    credit_usd_tx t.sell_order.user_id (paid t)

  -- One trade of an incoming sell order: the buyer gets the base asset for USD.
  unfoldable pub settle_buyer : Trade → Tx (Unit {0})
  settle_buyer t = do
    credit_balance_tx t.buy_order.user_id t.base_asset t.quantity
    debit_usd_tx t.buy_order.user_id (paid t)

  unfoldable pub settle_trades : Bool → List Trade → Sums → Tx Sums
  settle_trades is_buy [] sums = pure sums
  settle_trades true (t ∷ ts) sums = do
    settle_seller t
    settle_trades true ts
        (record { credit = sums.credit +ℤ t.quantity; debit = sums.debit +ℤ cost t })
  settle_trades false (t ∷ ts) sums = do
    settle_buyer t
    settle_trades false ts
        (record { credit = sums.credit +ℤ cost t; debit = sums.debit +ℤ t.quantity })

  -- The end for an incoming buy order
  unfoldable pub settle_incoming_buy : Order → String → Sums → Tx (Unit {0})
  settle_incoming_buy o base sums = do
    credit_balance_tx o.user_id base sums.credit
    debit_usd_tx o.user_id (column sums.debit)
    unless (not (str_eq o.order_type market)) (unlock_usd_tx o.user_id o.price)

  unfoldable pub settle_incoming_sell : Order → String → Sums → Tx (Unit {0})
  settle_incoming_sell o base sums = do
    credit_usd_tx o.user_id (column sums.credit)
    debit_balance_tx o.user_id base sums.debit
    unless (not (str_eq o.order_type market)) (unlock_balance_tx o.user_id base (remaining o))

  unfoldable pub settle_incoming : Order → String → Sums → Tx (Unit {0})
  settle_incoming o base sums =
      if str_eq o.side buy
      then settle_incoming_buy o base sums
      else settle_incoming_sell o base sums

  -- The balances of both sides
  unfoldable pub settle_all : Order → String → List Trade → Tx (Unit {0})
  settle_all o base trades = do
    sums ← settle_trades (str_eq o.side buy) trades no_sums
    settle_incoming o base sums

  unfoldable pub apply_order_result_to_db_tx : OrderResult → Tx (Unit {0})
  apply_order_result_to_db_tx result = do
    let incoming = result.incoming_order
    trades ← insert_trades result.trades
    update_others incoming.id result.updated_orders
    update_order_status_and_quantity_tx incoming.id incoming.status incoming.filled_quantity
    settle_all incoming result.base_asset trades

module _ (server : Server) where
  open server use {Store}

  -- The first error stops the loop.
  unfoldable pub update_others_in_redis : ℕ → List Order → Store → Bool × Store
  update_others_in_redis incoming [] st = (true, st)
  update_others_in_redis incoming (o ∷ os) st =
      let (done, st') =
        if o.id == incoming then (true, st) else update_order_in_redis server o st in
      let rest = update_others_in_redis incoming os st' in if done then rest else (false, st')

  unfoldable pub apply_order_result_to_redis : OrderResult → Store → Bool × Store
  apply_order_result_to_redis result st =
      let incoming = result.incoming_order in
      let (done, st') = update_others_in_redis incoming.id result.updated_orders st in
      let insert = insert_order_to_redis server incoming st' in
      if not done
      then (false, st')
      else if not (str_eq incoming.status filled) && str_eq incoming.order_type limit
      then insert
      else (true, st')
