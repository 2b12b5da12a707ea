-- ===== src/Controllers/Markets.antt =====
-- internal/controllers/markets.go.
use cex_go.Prelude.{ℕ, String, Option, none, some, List}
use cex_go.Models.{Market, CreateMarketRequest}
use cex_go.Queries.Markets
use cex_go.Queries.Markets.{get_all_markets}
use cex_go.Controllers.Orders.{get_market_by_id}
use cex_go.Controllers.Handlers.{Handler, answer, refuse, and_then, done}

unfoldable pub get_markets : Handler (List Market)
get_markets = answer 500 get_all_markets

unfoldable pub get_market : ℕ → Handler Market
get_market id = answer 404 (get_market_by_id id)

-- The id and the name of the new market
unfoldable pub create_market : Option CreateMarketRequest → Handler (ℕ × String)
create_market none s = refuse 400 s
create_market (some req) s =
    and_then
      (answer 500 (
        Markets.create_market req.name req.base_asset req.quote_asset req.min_order_size
          req.max_order_size req.taker_fee req.maker_fee))
      (λ id s'. (done (id, req.name), s')) s
