-- ===== src/Examples/Runs.antt =====
-- Runs of settlement, of the handlers and of the rooms.
use mathlib.Core.Path.{◌≡◌, refl}
use cex_go.Prelude.{true, some, List, [], ◌∷◌, arith, ℕ, All, ap, ◌∙◌, ◌*◌, ◌-◌, ◌^◌, suc}
use cex_go.Prelude.Int.{negsuc, pos, ◌+ℤ◌, ◌-ℤ◌, min_ℤ, ◌*ℤ◌, ℤ, ◌≤ℤ◌, eq_of_parts, int_laws}
use cex_go.Float.{Separates, IsNumeric, IsWhole, fine, fine_parts}
use cex_go.Models.{whole, Trade, CreateOrderRequest}
use cex_go.Matching.Records.{AllWhole}
use cex_go.Controllers.Orders.{
  quantity_to_lock, asset_to_lock, prepare, get_market_by_id, match_order, place_order, serve_order,
  enter_order, create_order, cancel_order, cancel_in_tx, release,
}
use cex_go.Matching.{
  insert_trades, update_others, settle_all, settle_trades, settle_seller, settle_buyer,
  settle_incoming, settle_incoming_buy, settle_incoming_sell, limit_status, fill_against_level,
  filled_level, Read, match_limit_orders, limit_level, match_while, apply_order_result_to_db_tx,
}
use cex_go.Queries.Balance.{
  lock_balance_tx, guarded_user, guarded_balance, set_user, credit_balance_tx, credit_usd_tx,
  debit_usd_tx, unlock_usd_tx, debit_balance_tx, upsert_balance, of_user, unlock_balance_tx, usd,
}
use cex_go.Queries.Order.{
  create_order_tx, update_order_status_and_quantity_tx, update_order_status_tx,
}
use cex_go.Queries.Trades.{insert_trade_tx}
use cex_go.Database.Statement.{
  query_row, exec_update, guarded_update, exec_insert, read_row, exists,
}
use cex_go.Database.Table.{update, select}
use cex_go.Controllers.{transaction, done}
use cex_go.Database.{round_trip, order_check, ◌>>◌, ok, Db}
use cex_go.Queries.Balance.Totals.{Moved}
use cex_go.Queries.Order.Effects.{OwnersExist}
use cex_go.Controllers.Orders.Money.{Answered, create_order-conserves, WhenDone, IsExact}
use cex_go.Controllers.Orders.Cancel.{cancel_order-conserves, ReleasesWhole}
use cex_go.Redis.{best_ask_from_redis, first_order, read_order, update_order_in_redis, is_finished}
use cex_go.Matching.Conservation.{apply_order_result_to_db_tx-conserves}
use cex_go.Database.Ensures.{Ensures}
use cex_go.Controllers.Deposits.{deposit, deposit-Moved}
use cex_go.Rooms.{WsServer, leave_room, join_room, empty_server, started, stepped, joined, left}
use cex_go.Rooms.Listeners.{IsServing, Reachable-IsServing}
use cex_go.Examples.Data.{
  funded, twice_locked, seven_btc, settled, fixed, hash_server, exchange, session, book, request,
  Hashes, fixed_column, fixed_mul,
}

fixed-sign : (a b : ℤ) → pos 0 ≤ℤ a → pos 0 ≤ℤ b → pos 0 ≤ℤ fine (fixed_mul a b)
fixed-sign (pos a) (pos b) h k = omega (int_laws, fine_parts (fixed_mul (pos a) (pos b)))
fixed-sign (pos a) (negsuc b) h k = absurd (omega arith)
fixed-sign (negsuc a) b h k = absurd (omega arith)

fine_pos : (k : ℕ) → fine (pos k) ≡ pos (k * 10 ^ 8)
unfolding ◌*ℤ◌
fine_pos k = ground arith

fine_negsuc : (k : ℕ) → fine (negsuc k) ≡ negsuc (suc k * 10 ^ 8 - 1)
unfolding ◌*ℤ◌
fine_negsuc k = ground arith

fixed-whole : (n : ℤ) → fixed_column (fine n) ≡ n
unfolding ◌-ℤ◌
fixed-whole (pos k) = ap fixed_column (fine_pos k) ∙ ground arith
fixed-whole (negsuc k) = ap fixed_column (fine_negsuc k) ∙ ground arith

pub fixed-IsNumeric : IsNumeric fixed
fixed-IsNumeric = record { sign = fixed-sign; whole = fixed-whole }

pub fixed-Separates : Separates (10 ^ 14) fixed
fixed-Separates a b _ _ h = eq_of_parts a b (ground arith)

pub All-always : {A : Type 0} {P : A → Type 0} → ((x : A) → P x) → (xs : List A) → All P xs
All-always h [] = tt
All-always h (x ∷ xs) = (h x, All-always h xs)

-- A product of these runs is an amount that eight decimals hold.
pub fixed-IsWhole : (a b : ℤ) → IsWhole (fine (fixed_mul a b))
fixed-IsWhole a b = (fixed_mul a b, refl)

pub fixed-AllWhole : (ts : List Trade) → AllWhole ⦃f = fixed⦄ ts
fixed-AllWhole = All-always (λ t. fixed-IsWhole t.price t.quantity)

pub fixed-IsExact :
    (r : CreateOrderRequest) (reads : List (Read Hashes)) → IsExact hash_server ⦃f = fixed⦄ r reads
fixed-IsExact r reads = (λ _ _. fixed-IsWhole r.price r.quantity, λ _ _. fixed-AllWhole _)

pub fixed-ReleasesWhole : (id : ℕ) (db : Db) → ReleasesWhole ⦃f = fixed⦄ id db
fixed-ReleasesWhole id db =
    All-always (λ r _ _. fixed-IsWhole r.price (r.quantity -ℤ r.filled_quantity)) db.orders

abbrev one_read : List (Read Hashes)
one_read = record { store = book; now = pos 1_700_000_002_000 } ∷ []

exchange-OwnersExist : OwnersExist exchange
unfolding select
exchange-OwnersExist = (refl, tt)

create_order-conserves_example :
    let (o, s, _) =
      create_order hash_server ⦃f = fixed⦄
        (some request)
        (some 1)
        (pos 1_700_000_001_000)
        one_read
        book
        session in
    Answered (Moved "BTC" (pos 0) (pos 0) exchange) exchange o s.db
create_order-conserves_example =
    create_order-conserves "BTC" hash_server ⦃f = fixed⦄ fixed-IsNumeric (some request) (some 1)
      (pos 1_700_000_001_000) one_read book session (λ r _. fixed-IsExact (prepare r) one_read)
      exchange-OwnersExist

cancel_order-conserves_example :
    let (o, s, _) = cancel_order hash_server ⦃f = fixed⦄ 20 book session in
    Answered (Moved "BTC" (pos 0) (pos 0) exchange) exchange o s.db
cancel_order-conserves_example =
    cancel_order-conserves "BTC" hash_server ⦃f = fixed⦄ 20 book session
      (fixed-ReleasesWhole 20 exchange)

-- The request is answered with the order's id, which the fifth statement was given.
create_order_answer :
    (create_order hash_server ⦃f = fixed⦄
      (some request)
      (some 1)
      (pos 1_700_000_001_000)
      one_read
      book
      session).0
    ≡ done 54
unfolding create_order serve_order place_order enter_order prepare get_market_by_id asset_to_lock
    quantity_to_lock match_order match_limit_orders limit_level match_while fill_against_level
    filled_level limit_status best_ask_from_redis first_order read_order transaction round_trip
    query_row exec_update guarded_update exec_insert read_row lock_balance_tx guarded_user
    guarded_balance set_user create_order_tx order_check insert_trade_tx insert_trades update_others
    update_order_status_and_quantity_tx settle_all settle_trades settle_seller settle_buyer
    settle_incoming settle_incoming_buy settle_incoming_sell apply_order_result_to_db_tx
    credit_balance_tx credit_usd_tx debit_usd_tx unlock_usd_tx debit_balance_tx upsert_balance
    select update ◌-ℤ◌ ◌+ℤ◌ ◌*ℤ◌ min_ℤ
create_order_answer = refl

buyer-exists : exists (of_user 1) exchange.users ≡ true
unfolding select
buyer-exists = refl

deposit-Moved_example :
    WhenDone (Moved "BTC" (pos 0) (whole 7) exchange) (deposit (some seven_btc) (some 1) session)
deposit-Moved_example = deposit-Moved "BTC" seven_btc 1 session buyer-exists

apply_order_result_to_db_tx-conserves_example :
    Ensures
      (λ _ db. Moved "BTC" (pos 0) (pos 0) exchange db)
      (apply_order_result_to_db_tx ⦃f = fixed⦄ settled session)
apply_order_result_to_db_tx-conserves_example =
    apply_order_result_to_db_tx-conserves "BTC" ⦃f = fixed⦄ fixed-IsNumeric settled session
      exchange-OwnersExist buyer-exists (refl, tt) (fixed-AllWhole settled.trades)

-- The ask is cancelled twice, and the second time unlocks another BTC of its user.
cancel_order_twice :
    let (_, s, st) = cancel_order hash_server ⦃f = fixed⦄ 20 book twice_locked in
    let (o, s', _) = cancel_order hash_server ⦃f = fixed⦄ 20 st s in
    (o ≡ done tt)
    × (s'.db.balances
        ≡ record { user_id = 2; asset = "BTC"; available = whole 2; locked = pos 0 } ∷ [])
unfolding cancel_order cancel_in_tx release update_order_status_tx order_check unlock_balance_tx
    guarded_balance guarded_update query_row exec_update round_trip update_order_in_redis
    is_finished select update ◌-ℤ◌ ◌+ℤ◌ ◌*ℤ◌
cancel_order_twice = (refl, refl)

-- Two users of one market join, and the first leaves.
abbrev watched : WsServer
watched = leave_room 1 7 (join_room 2 7 (join_room 1 7 empty_server))

Reachable-IsServing_example : IsServing watched
Reachable-IsServing_example = Reachable-IsServing watched (
    stepped _ _ (stepped _ _ (stepped _ _ started (joined 1 7 empty_server)) (joined 2 7 _))
      (left 1 7 _))

-- Both of these runs succeed.
locks_succeed :
    (((lock_balance_tx 2 "BTC" (whole 3) >> unlock_balance_tx 2 "BTC" (whole 3)) funded).0 ≡ ok tt)
    × (((lock_balance_tx 1 usd (whole 10) >> unlock_usd_tx 1 (whole 10)) session).0 ≡ ok tt)
unfolding lock_balance_tx unlock_balance_tx unlock_usd_tx guarded_balance guarded_user
    guarded_update query_row exec_update round_trip select update ◌-ℤ◌ ◌+ℤ◌
locks_succeed = (refl, refl)
