-- ===== src/Examples/Days.antt =====
-- An exchange from its empty tables to its first trade.
use cex_go.Prelude.{ℕ, ◌+◌, ◌++◌, String, some, List, [], ◌∷◌, map}
use cex_go.Prelude.Int.{min_ℤ, pos, ℤ, ◌-ℤ◌, ◌+ℤ◌, ◌*ℤ◌}
use mathlib.Core.Path.{◌≡◌, refl}
use cex_go.Models.{CreateOrderRequest, buy, sell, limit, whole}
use cex_go.Database.{Db, Session, order_check, round_trip}
use cex_go.Matching.{Read}
use cex_go.Queries.Balance.{usd}
use cex_go.Controllers.Orders.{create_order}
use cex_go.Database.Table.{select, update}
use cex_go.Database.Statement.{query_row, exec_update, guarded_update, exec_insert, read_row}
use cex_go.Queries.Assets
use cex_go.Queries.Markets
use cex_go.Queries.Users.{create_user, get_user_by_email}
use cex_go.Queries.Alone.{credit_usd, credit_balance}
use cex_go.Queries.Trades.{insert_trade_tx}
use cex_go.Auth.{hash_password}
use cex_go.Controllers.{transaction}
use cex_go.Controllers.Users.{register_user}
use cex_go.Controllers.Assets.{create_asset}
use cex_go.Controllers.Markets.{create_market}
use cex_go.Controllers.Deposits.{deposit}
use cex_go.Redis.{
  insert_order_to_redis, details_of, best_ask_from_redis, best_bid_from_redis, first_order,
  read_order, update_order_in_redis, is_finished,
}
use cex_go.Queries.Balance.{
  set_user, upsert_balance, unlock_usd_tx, guarded_user, guarded_balance, lock_balance_tx,
  credit_balance_tx, debit_usd_tx, debit_balance_tx, credit_usd_tx, unlock_balance_tx,
}
use cex_go.Queries.Order.{create_order_tx, update_order_status_and_quantity_tx}
use cex_go.Matching.{
  match_limit_orders, limit_level, match_while, limit_status, insert_trades, update_others,
  fill_against_level, settle_all, settle_trades, settle_incoming, settle_incoming_buy,
  settle_incoming_sell, settle_seller, settle_buyer, apply_order_result_to_db_tx,
  apply_order_result_to_redis, update_others_in_redis,
}
use cex_go.Controllers.Orders.{
  prepare, get_market_by_id, asset_to_lock, quantity_to_lock, match_order, enter_order, place_order,
  serve_order,
}
use cex_go.Controllers.Exchange.{
  History, replay, Call, registering, cancelling, inactivating, depositing, listing_asset,
  listing_market, ordering, serve, empty_db,
}
use cex_go.Controllers.Exchange.Balanced.{
  replay-balances, sum_paid, usd_paid, units_paid, ExactCall, Exact,
}
use cex_go.Queries.Balance.Totals.{usd_total, asset_total}
use cex_go.Examples.Runs.{fixed-IsNumeric, fixed-IsExact, fixed-ReleasesWhole}
use cex_go.Examples.Data.{hash_server, fixed, Hashes, ticks_from}

abbrev Calls : Type 0
Calls = List (Call hash_server ⦃f = fixed⦄)

abbrev Sheet : Type 0
Sheet = History hash_server ⦃f = fixed⦄

-- Every call has answers of its own to its statements, with ids from 100, from 200, and so on.
abbrev answered_from : ℕ → Calls → Sheet
answered_from n [] = []
answered_from n (c ∷ cs) = (c, ticks_from n 20) ∷ answered_from (n + 100) cs

abbrev behind : Sheet → Db → Db
behind h db = replay hash_server ⦃f = fixed⦄ h db

call-exact :
    (c : Call hash_server ⦃f = fixed⦄) (s : Session) → ExactCall hash_server ⦃f = fixed⦄ c s
call-exact (ordering req user now reads st) s = λ r _. fixed-IsExact (prepare r) reads
call-exact (cancelling id st) s = fixed-ReleasesWhole id s.db
call-exact (depositing req user) s = tt
call-exact (registering req) s = tt
call-exact (listing_asset req) s = tt
call-exact (inactivating symbol) s = tt
call-exact (listing_market req) s = tt

-- Two assets, two users with a deposit each, and a market
abbrev opening : Calls
opening =
    listing_asset (some record { symbol = usd; name = "Dollar"; icon_url = "" })
    ∷ listing_asset (some record { symbol = "BTC"; name = "Bitcoin"; icon_url = "" })
    ∷ registering (some record { email = "ada@example.org"; password = "difference" })
    ∷ registering (some record { email = "bob@example.org"; password = "engine" })
    ∷ depositing (some record { asset = usd; amount = whole 500 }) (some 301)
    ∷ depositing (some record { asset = "BTC"; amount = whole 2 }) (some 401)
    ∷ listing_market (
        some record {
          name = "BTC-USD";
          base_asset = "BTC";
          quote_asset = usd;
          min_order_size = whole 1;
          max_order_size = whole 100;
          taker_fee = pos 0;
          maker_fee = pos 0;
        })
    ∷ []

abbrev opened : Session
opened = record { db = behind (answered_from 100 opening) empty_db; ticks = ticks_from 800 20 }

abbrev order_at : String → CreateOrderRequest
order_at side = record {
  market_id = 700;
  order_type = limit;
  side = side;
  price = whole 100;
  quantity = whole 1;
  base_asset = "BTC";
  quote_asset = usd;
  amount = pos 0;
}

abbrev found : Hashes → List (Read Hashes)
found h =
    record { store = h; now = pos 1_700_000_002_000 }
    ∷ record { store = []; now = pos 1_700_000_002_000 }
    ∷ []

-- What Redis holds behind the ask
abbrev asked : Hashes
asked =
    let (_, _, st) =
      create_order hash_server ⦃f = fixed⦄ (some (order_at sell)) (some 401) (pos 1_700_000_001_000)
        (found []) [] opened in
    st

-- An ask by the second user, and a bid by the first
abbrev trading : Calls
trading =
    ordering (some (order_at sell)) (some 401) (pos 1_700_000_001_000) (found []) []
    ∷ ordering (some (order_at buy)) (some 301) (pos 1_700_000_001_000) (found asked) asked
    ∷ []

abbrev day : Sheet
day = answered_from 100 opening ++ answered_from 800 trading

day-Exact : (h : Sheet) (db : Db) → Exact hash_server ⦃f = fixed⦄ h db
unfolding Exact
day-Exact [] db = tt
day-Exact ((c, ticks) ∷ h) db = (call-exact c record { db = db; ticks = ticks }, day-Exact h _)

replay-balances_example :
    let db = behind day empty_db in
    (usd_total db
      ≡ sum_paid hash_server ⦃f = fixed⦄ (usd_paid hash_server ⦃f = fixed⦄) day empty_db)
    × (asset_total "BTC" db
        ≡ sum_paid hash_server ⦃f = fixed⦄ (units_paid hash_server ⦃f = fixed⦄ "BTC") day empty_db)
replay-balances_example =
    replay-balances hash_server ⦃f = fixed⦄ "BTC" fixed-IsNumeric day (day-Exact day empty_db)

-- The quantities of the trades
abbrev sizes : Db → List ℤ
sizes db = map (λ t. t.quantity) db.trades

-- One trade, and the 500 USD that were deposited
traded_one :
    (sizes (behind day empty_db) ≡ whole 1 ∷ [])
    × (sum_paid hash_server ⦃f = fixed⦄ (usd_paid hash_server ⦃f = fixed⦄) day empty_db ≡ whole 500)
unfolding sum_paid replay serve register_user get_user_by_email create_user hash_password
    create_asset create_market deposit credit_usd credit_balance set_user upsert_balance
    Assets.create_asset Markets.create_market create_order serve_order place_order enter_order
    prepare get_market_by_id asset_to_lock quantity_to_lock match_order match_limit_orders
    limit_level match_while limit_status best_ask_from_redis best_bid_from_redis first_order
    read_order transaction round_trip query_row exec_update guarded_update exec_insert
    lock_balance_tx guarded_user guarded_balance create_order_tx order_check insert_trades
    insert_trade_tx read_row update_others update_order_status_and_quantity_tx settle_all
    settle_trades settle_incoming settle_incoming_buy settle_incoming_sell settle_seller
    settle_buyer apply_order_result_to_db_tx credit_balance_tx debit_usd_tx debit_balance_tx
    credit_usd_tx unlock_usd_tx unlock_balance_tx apply_order_result_to_redis update_others_in_redis
    update_order_in_redis is_finished fill_against_level select update ◌-ℤ◌ ◌+ℤ◌
    insert_order_to_redis details_of min_ℤ ◌*ℤ◌
traded_one = (refl, refl)
