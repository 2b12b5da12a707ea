-- ===== src/Matching/Fill.antt =====
-- `fillAgainstLevel` and `fillAgainstLevelForMarketBuy`: an incoming order against the order at the
-- best level. The level is a copy that was read from Redis; `now` is `time.Now()`.
use cex_go.Prelude.{ℕ, String, str_eq, if◌then◌else◌}
use cex_go.Prelude.Int.{ℤ, ◌+ℤ◌, ◌-ℤ◌, min_ℤ, eqb_ℤ}
use cex_go.Float.{Float64, mul, div}
use cex_go.Models.{Order, Trade, zero_order, buy, filled, partially_filled}

-- `Quantity - FilledQuantity`
abbrev pub remaining : Order → ℤ
remaining o = o.quantity -ℤ o.filled_quantity

-- The level after a fill of `quantity`
unfoldable pub filled_level : ℤ → Order → Order
filled_level quantity level =
    let total = level.filled_quantity +ℤ quantity in
    record level {
      filled_quantity = total;
      status = if eqb_ℤ total level.quantity then filled else partially_filled;
    }

abbrev pub new_trade : ℕ → ℕ → ℕ → ℤ → ℤ → ℤ → String → String → Trade
new_trade buy_order_id sell_order_id market_id price quantity now base quote = record {
  id = 0;
  buy_order_id = buy_order_id;
  sell_order_id = sell_order_id;
  market_id = market_id;
  price = price;
  quantity = quantity;
  trade_time = now;
  buy_order = zero_order;
  sell_order = zero_order;
  base_asset = base;
  quote_asset = quote;
}

-- The incoming order, the level and the trade after the fill
unfoldable pub fill_against_level : String → String → ℤ → Order → Order → Order × Order × Trade
unfolding filled_level
fill_against_level base quote now incoming level =
    let fill_quantity = min_ℤ (remaining incoming) (remaining level) in
    let is_buy = str_eq incoming.side buy in
    (
      record incoming { filled_quantity = incoming.filled_quantity +ℤ fill_quantity },
      filled_level fill_quantity level,
      new_trade (if is_buy then incoming.id else level.id)
          (if is_buy then level.id else incoming.id) incoming.market_id level.price fill_quantity
          now base quote,
    )

-- The incoming order's price is the amount that the buyer still wants to spend.
unfoldable pub fill_against_level_for_market_buy :
    ⦃f : Float64⦄ → String → String → ℤ → Order → Order → Order × Order × Trade
unfolding filled_level
fill_against_level_for_market_buy base quote now incoming level =
    let fill_price = level.price in
    let fill_quantity = min_ℤ (div incoming.price fill_price) (remaining level) in
    (
      record incoming {
        filled_quantity = incoming.filled_quantity +ℤ fill_quantity;
        price = incoming.price -ℤ mul fill_price fill_quantity;
      },
      filled_level fill_quantity level,
      new_trade incoming.id level.id incoming.market_id fill_price fill_quantity now base quote,
    )
