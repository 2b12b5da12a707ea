-- ===== src/Controllers/Assets.antt =====
-- internal/controllers/balance.go: `GetBalances`, `GetPortfolio`, `CreateAsset`, `InactivateAsset`.
-- The user is `none` where the context has none, a request where gin's binding refuses the body.
use cex_go.Prelude.{ℕ, String, Bool, Option, none, some, List}
use cex_go.Float.{Float64}
use cex_go.Models.{Balance, Portfolio, CreateAssetRequest}
use cex_go.Queries.Assets
use cex_go.Queries.Portfolio
use cex_go.Controllers.Handlers.{Handler, answer, refuse, and_then, done}

module _ (collates : String → String → Bool) where
  unfoldable pub get_balances : Option ℕ → Handler (List Balance)
  get_balances none = refuse 401
  get_balances (some user) = answer 500 (Portfolio.get_balances collates user)

  unfoldable pub get_portfolio : ⦃f : Float64⦄ → Option ℕ → Handler Portfolio
  get_portfolio none = refuse 401
  get_portfolio (some user) = answer 500 (Portfolio.get_portfolio collates user)

unfoldable pub create_asset : Option CreateAssetRequest → Handler String
create_asset none s = refuse 400 s
create_asset (some req) s =
    and_then (answer 500 (Assets.create_asset req)) (λ _ s'. (done req.symbol, s')) s

unfoldable pub inactivate_asset : String → Handler String
inactivate_asset symbol =
    and_then (answer 500 (Assets.inactivate_asset symbol)) λ _ s. (done symbol, s)
