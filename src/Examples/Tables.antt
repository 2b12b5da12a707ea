-- ===== src/Examples/Tables.antt =====
-- Runs of the queries on the tables of the small exchange.
use mathlib.Core.Path.{◌≡◌, refl}
use mathlib.Core.Logic.{inl, ◌≢◌}
use cex_go.Prelude.{List, [], ◌∷◌, All, Mem, length, arith, some}
use cex_go.Prelude.Int.{pos}
use cex_go.Models.{Order, whole, partially_filled, open_status, sell, limit}
use cex_go.Database.{Db, OrderRow, Session, ok, round_trip, order_check}
use cex_go.Database.Table.{select, update}
use cex_go.Database.Statement.{exec_affected}
use cex_go.Database.Ensures.{Ensures}
use cex_go.Database.Served
use cex_go.Database.Listing.{order_by, select_all}
use cex_go.Queries.Balance.{lock_balance_tx, unlock_balance_tx, debit_balance_tx}
use cex_go.Queries.Balance.Steps.{IsStep}
use cex_go.Queries.Balance.Refinement.{
  locking, unlocking, debiting, lock_balance_tx-IsStep, unlock_debit-IsStep,
}
use cex_go.Queries.Balance.Ledger.{Account, ledger_of}
use cex_go.Queries.Balance.Granted.{lock_balance_tx-granted}
use cex_go.Queries.Order.{create_order_tx, scan_order}
use cex_go.Queries.Order.Alone.{create_order, cancel_order}
use cex_go.Queries.Order.Alone.Creating.{undated_result, create_order-create_order_tx}
use cex_go.Queries.Order.Alone.Cancelling.{cancel_order-once}
use cex_go.Queries.Order.Lists.{
  scanned, get_all_active_orders, get_active_orders_by_user_id, join_markets, newest_first,
  is_active_of,
}
use cex_go.Queries.Order.Lists.Book.{get_all_active_orders-broken}
use cex_go.Queries.Order.Lists.Restart.{partially_filled-unloaded}
use cex_go.Examples.Data.{tick, broken, session, exchange, ask}

lock_balance_tx-IsStep_example :
    Ensures
      (λ _ db. IsStep (locking (whole 100)) 1 "USD" 2 "BTC" exchange db)
      (lock_balance_tx 1 "USD" (whole 100) session)
lock_balance_tx-IsStep_example = lock_balance_tx-IsStep 1 2 "USD" "BTC" (whole 100) session

unlock_debit-IsStep_example :
    Ensures
      (λ _ db. IsStep (unlocking (whole 1)) 2 "BTC" 1 "USD" exchange db)
      (unlock_balance_tx 2 "BTC" (whole 1) session)
    × Ensures
        (λ _ db. IsStep (debiting (whole 1)) 2 "BTC" 1 "USD" exchange db)
        (debit_balance_tx 2 "BTC" (whole 1) session)
unlock_debit-IsStep_example = unlock_debit-IsStep 2 1 "BTC" "USD" (whole 1) session refl

create_order-create_order_tx_example :
    create_order 1 1 limit sell (whole 100) (whole 2) session
    ≡ undated_result
        (create_order_tx (pos 1_700_000_000_000) 1 1 limit sell (whole 100) (whole 2) session)
create_order-create_order_tx_example =
    create_order-create_order_tx (pos 1_700_000_000_000) 1 1 limit sell (whole 100) (whole 2)
      session

abbrev after_cancel : Session
after_cancel = (cancel_order 20 2 session).1

cancels : cancel_order 20 2 session ≡ (ok tt, after_cancel)
unfolding cancel_order exec_affected round_trip select update order_check
cancels = refl

cancel_order-once_example : (cancel_order 20 2 after_cancel).0 ≢ ok tt
cancel_order-once_example =
    cancel_order-once 20 2 2 session after_cancel after_cancel (tt, tt) cancels refl

-- The ask as the queries read it
abbrev asked : Order
asked = scan_order ask

-- Another ask, which is newer
abbrev late : OrderRow
late = record ask { id = 21; created_at = pos 1_700_000_009_000 }

abbrev two_asks : Db
two_asks = record exchange { orders = ask ∷ late ∷ [] }

get_all_active_orders-broken_example :
    get_all_active_orders (Served.session two_asks (tick 60 ∷ tick 61 ∷ broken ∷ []))
    ≡ (ok (asked ∷ []), Served.session two_asks [])
get_all_active_orders-broken_example =
    get_all_active_orders-broken two_asks (tick 60) broken (tick 61 ∷ []) [] (asked ∷ []) []
      (scan_order late) refl (refl, (refl, tt)) refl refl

-- The ask after a part of it was filled
abbrev partly : OrderRow
partly = record ask { status = partially_filled; filled_quantity = pos 50_000_000 }

abbrev traded : Db
traded = record exchange { orders = partly ∷ [] }

abbrev partly_read : Order
partly_read = record (scan_order partly) { base_asset = "BTC"; quote_asset = "USD" }

partly_joined : Mem partly_read (join_markets traded.markets (scanned traded))
unfolding select
partly_joined = inl refl

one_active :
    1
    ≡ length (
        order_by newest_first
          (select_all (is_active_of 2) (join_markets traded.markets (scanned traded))))
unfolding select
one_active = refl

partially_filled-unloaded_example :
    ((os : List Order) × (get_active_orders_by_user_id 2
          (Served.session traded (tick 60 ∷ tick 61 ∷ []))
        ≡ (ok os, Served.session traded []))
      × Mem partly_read os)
    × Ensures
        (λ os _. All (λ o. o.status ≡ open_status) os)
        (get_all_active_orders (Served.session traded (tick 62 ∷ tick 63 ∷ [])))
partially_filled-unloaded_example =
    partially_filled-unloaded partly_read traded (tick 60) (tick 61 ∷ []) []
      (Served.session traded (tick 62 ∷ tick 63 ∷ [])) partly_joined refl (refl, (refl, tt))
      one_active

abbrev buyer_account : Account
buyer_account = record { available = whole 1000; locked = pos 0 }

buyer_listed : ledger_of exchange 1 "USD" ≡ some buyer_account
unfolding select
buyer_listed = refl

lock_balance_tx-granted_example :
    (after : Db) × (lock_balance_tx 1 "USD"
        (whole 100)
        (Served.session exchange (tick 60 ∷ tick 61 ∷ []))
      ≡ (ok tt, Served.session after []))
lock_balance_tx-granted_example =
    lock_balance_tx-granted 1 "USD" (whole 100) exchange (tick 60) (tick 61) [] buyer_account
      buyer_listed (omega arith) (omega arith) (omega arith) refl refl
