-- ===== src/Examples/Matches.antt =====
-- Runs of matching and of the scores.
use mathlib.Core.Path.{◌≡◌, refl}
use cex_go.Prelude.{◌^◌, some, List, All, replicate, arith, length, ◌⊎◌, Mem, none, if◌then◌else◌}
use cex_go.Prelude.Int.{pos, ◌+ℤ◌, ◌-ℤ◌, ◌≤ℤ◌, ◌<ℤ◌, ◌*ℤ◌, min_ℤ, eqb_ℤ, int_laws}
use cex_go.Models.{Order, whole, cancelled, filled}
use cex_go.Matching.{
  filled_level, Read, match_limit_orders, match_market_buy, match_market_sell, limit_level,
  remaining, match_while, fill_against_level_for_market_buy, market_buy_quantity,
}
use cex_go.Database.Table.{select}
use cex_go.Redis.{best_ask_from_redis, first_order, read_order, details_of, build_score}
use cex_go.Redis.Scores.{build_score-rescored}
use cex_go.Matching.Moves.{units}
use cex_go.Matching.Limits.{IsTradeOf, match_limit_orders-fills}
use cex_go.Matching.Ending.{TellsFilling, match_limit_orders-ends}
use cex_go.Matching.Stale.{times, match_limit_orders-overfills}
use cex_go.Matching.Market.{
  costs, IsPurchaseOf, IsSaleOf, match_market_buy-spends, match_market_buy-status,
  match_market_sell-fills,
}
use cex_go.Examples.Runs.{fixed-Separates}
use cex_go.Examples.Data.{lookup, offer, fixed, hash_server, book, bid, Hashes}

abbrev reads : List (Read Hashes)
reads = replicate 3 (record { store = book; now = pos 1_700_000_002_000 })

abbrev asked : Order
asked = read_order 20 (lookup 20 book)

match_limit_orders-fills_example :
    let result = match_limit_orders hash_server ⦃f = fixed⦄ bid "BTC" "USD" reads in
    let q = result.incoming_order.filled_quantity in
    (result.incoming_order
      ≡ record bid { filled_quantity = q; status = result.incoming_order.status })
    × (q ≡ pos 0 +ℤ units result.trades)
    × (q ≤ℤ whole 3)
    × All (IsTradeOf bid "BTC") result.trades
    × (result.base_asset ≡ "BTC")
match_limit_orders-fills_example =
    match_limit_orders-fills hash_server ⦃f = fixed⦄ bid "BTC" "USD" reads (omega arith)

match_limit_orders-ends_example :
    let result = match_limit_orders hash_server ⦃f = fixed⦄ bid "BTC" "USD" reads in
    let incoming = result.incoming_order in
    TellsFilling incoming
    × ((length result.trades ≡ 3)
        ⊎ ((incoming.filled_quantity ≡ incoming.quantity)
            ⊎ ((r : Read Hashes) × Mem r reads
                × (limit_level hash_server incoming r.store ≡ none))))
match_limit_orders-ends_example =
    match_limit_orders-ends hash_server (10 ^ 14) ⦃f = fixed⦄ fixed-Separates bid "BTC" "USD" reads
      (omega arith) (omega arith) (omega arith)

asked-best : limit_level hash_server bid book ≡ some asked
unfolding limit_level best_ask_from_redis first_order read_order
asked-best = refl

-- Three BTC are bought from an ask of one.
match_limit_orders-overfills_example :
    units (match_limit_orders hash_server ⦃f = fixed⦄ bid "BTC" "USD" reads).trades
    ≡ times 3 (remaining asked)
unfolding read_order ◌-ℤ◌ ◌+ℤ◌
match_limit_orders-overfills_example =
    match_limit_orders-overfills hash_server ⦃f = fixed⦄ "BTC" "USD" bid book
      (pos 1_700_000_002_000) asked 3 asked-best (omega arith) (omega arith)

match_market_buy-spends_example :
    let result = match_market_buy hash_server ⦃f = fixed⦄ bid "BTC" "USD" reads in
    (result.incoming_order.price ≡ whole 100 -ℤ costs ⦃f = fixed⦄ result.trades)
    × (result.incoming_order.filled_quantity ≡ pos 0 +ℤ units result.trades)
    × (result.incoming_order.user_id ≡ 1)
    × All (IsPurchaseOf bid "BTC") result.trades
    × (result.base_asset ≡ "BTC")
match_market_buy-spends_example =
    match_market_buy-spends hash_server ⦃f = fixed⦄ bid "BTC" "USD" reads

market_buy_units :
    units (match_market_buy hash_server ⦃f = fixed⦄ bid "BTC" "USD" reads).trades ≡ whole 1
unfolding match_market_buy match_while best_ask_from_redis first_order read_order
    fill_against_level_for_market_buy ◌-ℤ◌ ◌+ℤ◌ ◌*ℤ◌ min_ℤ filled_level select
market_buy_units = refl

market_buy_left :
    (match_market_buy hash_server ⦃f = fixed⦄ bid "BTC" "USD" reads).incoming_order.price ≡ pos 0
unfolding match_market_buy match_while best_ask_from_redis first_order read_order
    fill_against_level_for_market_buy ◌-ℤ◌ ◌+ℤ◌ ◌*ℤ◌ min_ℤ filled_level select
market_buy_left = refl

-- The whole amount is spent, and the order is cancelled.
match_market_buy-status_example :
    let result = match_market_buy hash_server ⦃f = fixed⦄ bid "BTC" "USD" reads in
    (result.incoming_order.quantity ≡ market_buy_quantity)
    × (result.incoming_order.status ≡ cancelled)
match_market_buy-status_example =
    match_market_buy-status hash_server (10 ^ 14) ⦃f = fixed⦄ fixed-Separates bid "BTC" "USD" reads
      refl (omega arith) market_buy_left (rw market_buy_units (omega arith)) (omega arith)

match_market_sell-fills_example :
    let result = match_market_sell hash_server ⦃f = fixed⦄ offer "BTC" "USD" reads in
    let q = pos 0 +ℤ units result.trades in
    (result.incoming_order ≡ record offer {
      filled_quantity = q;
      status = if eqb_ℤ q (whole 3) then filled else cancelled;
    })
    × (q ≤ℤ whole 3)
    × All (IsSaleOf offer "BTC") result.trades
    × (result.base_asset ≡ "BTC")
match_market_sell-fills_example =
    match_market_sell-fills hash_server ⦃f = fixed⦄ offer "BTC" "USD" reads refl (omega arith)

build_score-rescored_example :
    let back = read_order 20 (some (details_of asked)) in
    build_score back.price back.created_at <ℤ build_score (whole 95) (pos 1_700_000_001_000)
unfolding read_order ◌+ℤ◌
build_score-rescored_example =
    build_score-rescored asked (whole 95) (pos 1_700_000_001_000) (omega int_laws) (omega int_laws)
