-- ===== src/Examples/Returns.antt =====
-- A bid that meets no ask, and is cancelled.
use mathlib.Core.Path.{◌≡◌, refl}
use cex_go.Prelude.{ℕ, some, List, [], ◌∷◌, inl}
use cex_go.Prelude.Int.{pos, ◌-ℤ◌, ◌+ℤ◌, ◌*ℤ◌}
use cex_go.Models.{CreateOrderRequest, whole}
use cex_go.Database.{Session, order_check, round_trip}
use cex_go.Database.Table.{select, update}
use cex_go.Database.Statement.{guarded_update, query_row, exec_update, exec_insert}
use cex_go.Redis.{best_ask_from_redis, first_order, read_order, update_order_in_redis, is_finished}
use cex_go.Queries.Balance.{
  usd, unlock_usd_tx, guarded_user, lock_balance_tx, credit_balance_tx, debit_usd_tx,
}
use cex_go.Queries.Balance.Ledger.{ledger_of}
use cex_go.Queries.Order.{
  create_order_tx, update_order_status_tx, update_order_status_and_quantity_tx,
}
use cex_go.Matching.{
  Read, match_limit_orders, limit_level, match_while, limit_status, insert_trades, update_others,
  settle_all, settle_trades, settle_incoming, settle_incoming_buy, apply_order_result_to_db_tx,
}
use cex_go.Controllers.{done, transaction, Outcome}
use cex_go.Controllers.Orders.{
  prepare, get_market_by_id, asset_to_lock, quantity_to_lock, match_order, enter_order, place_order,
  serve_order, create_order, release, cancel_in_tx, cancel_order,
}
use cex_go.Controllers.Orders.Resting.{FindsNone}
use cex_go.Controllers.Orders.Restored.{cancel_order-create_order}
use cex_go.Examples.Runs.{fixed-IsNumeric, fixed-IsWhole}
use cex_go.Examples.Data.{hash_server, fixed, book, Hashes, request, session, exchange, btc}

-- A bid for a BTC at 90, below the only ask
abbrev low : CreateOrderRequest
low = record request { price = whole 90 }

abbrev one_read : List (Read Hashes)
one_read = record { store = book; now = pos 1_700_000_002_000 } ∷ []

low-FindsNone : FindsNone hash_server low one_read
unfolding limit_level best_ask_from_redis first_order read_order
low-FindsNone o m side price = (rw (m, side, price) refl, tt)

abbrev placed : Outcome ℕ × Session × Hashes
placed =
    create_order hash_server ⦃f = fixed⦄ (some low) (some 1) (pos 1_700_000_001_000) one_read book
      session

low-placed : placed.0 ≡ done 54
unfolding create_order serve_order place_order enter_order prepare get_market_by_id asset_to_lock
    quantity_to_lock match_order match_limit_orders limit_level match_while limit_status
    best_ask_from_redis first_order read_order transaction round_trip query_row exec_update
    guarded_update exec_insert lock_balance_tx guarded_user create_order_tx order_check
    insert_trades update_others update_order_status_and_quantity_tx settle_all settle_trades
    settle_incoming settle_incoming_buy apply_order_result_to_db_tx credit_balance_tx debit_usd_tx
    select update ◌-ℤ◌ ◌+ℤ◌ ◌*ℤ◌
low-placed = refl

abbrev gone : Outcome (Unit {0}) × Session × Hashes
gone = cancel_order hash_server ⦃f = fixed⦄ 54 placed.2 placed.1

low-cancelled : gone.0 ≡ done tt
unfolding create_order serve_order place_order enter_order prepare get_market_by_id asset_to_lock
    quantity_to_lock match_order match_limit_orders limit_level match_while limit_status
    best_ask_from_redis first_order read_order transaction round_trip query_row exec_update
    guarded_update exec_insert lock_balance_tx guarded_user create_order_tx order_check
    insert_trades update_others update_order_status_and_quantity_tx settle_all settle_trades
    settle_incoming settle_incoming_buy apply_order_result_to_db_tx credit_balance_tx debit_usd_tx
    select update ◌-ℤ◌ ◌+ℤ◌ ◌*ℤ◌ cancel_order cancel_in_tx release update_order_status_tx
    unlock_usd_tx update_order_in_redis is_finished
low-cancelled = refl

cancel_order-create_order_example : ledger_of gone.1.db 1 usd ≡ ledger_of exchange 1 usd
unfolding prepare quantity_to_lock select ◌*ℤ◌ ◌-ℤ◌
cancel_order-create_order_example =
    cancel_order-create_order hash_server ⦃f = fixed⦄ fixed-IsNumeric low 1 btc
      (pos 1_700_000_001_000) 1 usd one_read book session 54 placed.2 placed.1
      (refl, refl, refl, inl refl) low-FindsNone refl refl refl
      (λ _. fixed-IsWhole (whole 90) (whole 1)) low-placed refl low-cancelled
