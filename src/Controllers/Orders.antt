-- ===== src/Controllers/Orders.antt =====
-- internal/controllers/order.go: `CreateOrder` and `CancelOrder`.
pub mod Entry
pub mod Money
pub mod Cancel
pub mod Again
pub mod Cancelled
pub mod Gone
pub mod Resting
pub mod Releasing
pub mod Yielding
pub mod Placing
pub mod Restored
pub mod Keeping
use cex_go.Prelude.{
  ℕ, String, Bool, true, false, Option, none, some, List, not, ◌&&◌, str_eq, if◌then◌else◌, ◌==◌,
}
use cex_go.Prelude.Int.{ℤ, pos, eqb_ℤ, leb_ℤ}
use cex_go.Float.{Float64, product, column, fine}
use cex_go.Models.{Order, Market, CreateOrderRequest, buy, sell, market, cancelled, whole}
use cex_go.Database.{Session, Result, Tx, Tick, ok, err, ◌>>=◌, ◌>>◌, pure, round_trip}
use cex_go.Database.Statement.{query_row}
use cex_go.Redis.{Server, update_order_in_redis}
use cex_go.Queries.Balance.{lock_balance_tx, unlock_balance_tx, unlock_usd_tx}
use cex_go.Queries.Order.{create_order_tx, update_order_status_tx, of_market, put_markets}
use cex_go.Matching.{
  OrderResult, Read, remaining, match_limit_orders, match_market_orders,
  apply_order_result_to_db_tx, apply_order_result_to_redis,
}
use cex_go.Controllers.Handlers.{
  Outcome, refused, done, Handler, answer, refuse, and_then, transaction, rollback, committed,
}

-- The request after its amount stands in for its price, and, for a market buy, for the quantity
unfoldable pub prepare : CreateOrderRequest → CreateOrderRequest
prepare req =
    let priced =
      if not (eqb_ℤ req.amount (pos 0)) then record req { price = req.amount } else req in
    if str_eq priced.order_type market && str_eq priced.side buy
    then record priced { quantity = whole 100000; price = priced.amount }
    else priced

-- `WHERE id = id AND is_active = true`
unfoldable pub get_market_by_id : ℕ → Tx Market
unfolding query_row
get_market_by_id id = query_row (λ db. db.markets) put_markets (λ m. of_market id m && m.is_active)

unfoldable pub asset_to_lock : CreateOrderRequest → Market → String
asset_to_lock req m = if str_eq req.side buy then m.quote_asset else m.base_asset

-- In 10^-16, as the product is not rounded
unfoldable pub quantity_to_lock : ⦃f : Float64⦄ → CreateOrderRequest → ℤ
quantity_to_lock req =
    if str_eq req.side buy
    then if str_eq req.order_type market then fine req.amount else product req.price req.quantity
    else fine req.quantity

-- What a column makes of it. (A column rounds what the statement computes from its old value. That is the
-- old value with the rounded amount, where eight decimals hold the amount.)
abbrev pub locked_amount : ⦃f : Float64⦄ → CreateOrderRequest → ℤ
locked_amount req = column (quantity_to_lock req)

module _ (server : Server) ⦃f : Float64⦄ where
  open server use {Store}

  unfoldable pub match_order : CreateOrderRequest → Order → List (Read Store) → OrderResult
  match_order req order reads =
      if str_eq req.order_type market
      then match_market_orders server order req.base_asset req.quote_asset reads
      else match_limit_orders server order req.base_asset req.quote_asset reads

  -- The order is created, matched, and the result is written; every error is answered by a 500.
  unfoldable pub enter_order : CreateOrderRequest → ℕ → ℤ → List (Read Store) → Tx (ℕ × OrderResult)
  enter_order req user clock reads = do
    order ← create_order_tx clock user req.market_id req.order_type req.side req.price req.quantity
    let result = match_order req order reads
    apply_order_result_to_db_tx result
    pure (order.id, result)

  unfoldable pub place_order :
      CreateOrderRequest → ℕ → Market → ℤ → List (Read Store) → Handler (ℕ × OrderResult)
  place_order req user m clock reads =
      and_then (answer 400 (lock_balance_tx user (asset_to_lock req m) (locked_amount req)))
        λ _. answer 500 (enter_order req user clock reads)

  -- The handler up to the commit, on a prepared request
  unfoldable pub serve_order :
      CreateOrderRequest → Option ℕ → ℤ → List (Read Store) → Handler (ℕ × OrderResult)
  serve_order req none clock reads = refuse 401
  serve_order req (some user) clock reads =
      and_then (answer 400 (get_market_by_id req.market_id)) λ m.
        if str_eq req.side buy && leb_ℤ (quantity_to_lock req) (pos 0)
        then refuse 400
        else transaction (place_order req user m clock reads)

  -- After the commit a failure of Redis is only logged.
  abbrev pub synced : Store → Outcome (ℕ × OrderResult) × Session → Outcome ℕ × Session × Store
  synced st (refused status, s) = (refused status, s, st)
  synced st (done (id, result), s) = (done id, s, (apply_order_result_to_redis server result st).1)

  -- The request is `none` where gin's binding refuses the body, the user where the context has none.
  -- `reads` is what the reads of the book find while the order is matched, `st` what Redis holds
  -- after the commit.
  unfoldable pub create_order :
      Option CreateOrderRequest
      → Option ℕ
      → ℤ
      → List (Read Store)
      → Store
      → Session
      → Outcome ℕ × Session × Store
  create_order none user clock reads st s = (refused 400, s, st)
  create_order (some req) user clock reads st s =
      synced st (serve_order (prepare req) user clock reads s)

  -- The product goes to two columns, as in `locked_amount`.
  unfoldable pub release : Order → Tx (Unit {0})
  release o =
      if str_eq o.side sell
      then unlock_balance_tx o.user_id o.base_asset (remaining o)
      else unlock_usd_tx o.user_id (column (product o.price (remaining o)))

  unfoldable pub cancel_in_tx : ℕ → Tx Order
  cancel_in_tx id = do order ← update_order_status_tx id cancelled; release order; pure order

  -- Redis is written before the commit, and keeps what was written if the commit fails.
  abbrev pub cancelled_in_redis :
      Session → Order → Session → Bool × Store → Outcome (Unit {0}) × Session × Store
  cancelled_in_redis before o s (false, st) = (refused 500, rollback before s, st)
  cancelled_in_redis before o s (true, st) =
      let (r, s') = committed before tt (round_trip s) in (r, s', st)

  abbrev pub cancelled_in_db :
      Session → Store → Result Order × Session → Outcome (Unit {0}) × Session × Store
  cancelled_in_db before st (err _, s) = (refused 500, rollback before s, st)
  cancelled_in_db before st (ok o, s) =
      cancelled_in_redis before o s
        (update_order_in_redis server (record o { status = cancelled }) st)

  abbrev pub cancel_opened :
      Session → ℕ → Store → Result Tick × Session → Outcome (Unit {0}) × Session × Store
  cancel_opened before id st (err _, s) = (refused 500, s, st)
  cancel_opened before id st (ok _, s) = cancelled_in_db before st (cancel_in_tx id s)

  unfoldable pub cancel_order : ℕ → Store → Session → Outcome (Unit {0}) × Session × Store
  cancel_order id st s = cancel_opened s id st (round_trip s)
