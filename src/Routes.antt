-- ===== src/Routes.antt =====
-- internal/routes: a handler behind VerifyUser or VerifyAdmin. A handler runs only when the function in
-- front of it has not aborted the request, with the id that this put into the context.
pub mod Admin
pub mod Bearer
use cex_go.Prelude.{ℕ, String, Bool, Option, none, some, List}
use cex_go.Prelude.Int.{ℤ}
use cex_go.Float.{Float64}
use cex_go.Models.{
  Order, Balance, Portfolio, UserTrade, CreateAssetRequest, CreateMarketRequest, CreateOrderRequest,
}
use cex_go.Database.{Session}
use cex_go.Redis.{Server}
use cex_go.Matching.{Read}
use cex_go.Auth.{Jwt}
use cex_go.Middleware.{verify_user, verify_admin}
use cex_go.Controllers.{Handler, Outcome, refused, done, and_then}
use cex_go.Controllers.Orders.{create_order, cancel_order}
use cex_go.Controllers.Deposits.{DepositRequest, deposit}
use cex_go.Controllers.Assets.{get_balances, get_portfolio, create_asset, inactivate_asset}
use cex_go.Controllers.Markets.{create_market}
use cex_go.Controllers.Reads.{get_user_trades, get_active_user_orders}

module _ (jwt : Jwt) (secret : String) (now : ℤ) (header : String) where
  abbrev pub for_user : {A : Type 0} → (Option ℕ → Handler A) → Handler A
  for_user handler =
      and_then (verify_user jwt secret now header) λ (user, email). handler (some user)

  abbrev pub admin_only : {A : Type 0} → Handler A → Handler A
  admin_only handler = and_then (verify_admin jwt secret now header) λ _. handler

  unfoldable pub post_deposit : Option DepositRequest → Handler (Unit {0})
  post_deposit req = for_user (deposit req)

  unfoldable pub get_balances_route : (String → String → Bool) → Handler (List Balance)
  get_balances_route collates = for_user (get_balances collates)

  unfoldable pub get_portfolio_route : ⦃f : Float64⦄ → (String → String → Bool) → Handler Portfolio
  get_portfolio_route collates = for_user (get_portfolio collates)

  unfoldable pub get_trades_route : Handler (List UserTrade)
  get_trades_route = for_user get_user_trades

  unfoldable pub get_active_user_orders_route : Handler (List Order)
  get_active_user_orders_route = for_user get_active_user_orders

  unfoldable pub post_assets : Option CreateAssetRequest → Handler String
  post_assets req = admin_only (create_asset req)

  unfoldable pub patch_asset_inactivate : String → Handler String
  patch_asset_inactivate symbol = admin_only (inactivate_asset symbol)

  unfoldable pub post_market : Option CreateMarketRequest → Handler (ℕ × String)
  post_market req = admin_only (create_market req)

  module _ (server : Server) where
    open server use {Store}

    -- The same for a handler that writes to Redis
    abbrev pub with_store :
        {A : Type 0}
        → Outcome (ℕ × String) × Session
        → Store
        → (ℕ → Session → Outcome A × Session × Store)
        → Outcome A × Session × Store
    with_store (refused status, s) st k = (refused status, s, st)
    with_store (done (user, email), s) st k = k user s

    unfoldable pub post_orders :
        ⦃f : Float64⦄
        → Option CreateOrderRequest
        → ℤ
        → List (Read Store)
        → Store
        → Session
        → Outcome ℕ × Session × Store
    post_orders req clock reads st s =
        with_store (verify_user jwt secret now header s) st
          λ user. create_order server req (some user) clock reads st

    -- The handler does not ask for the user.
    unfoldable pub put_cancel_order :
        ⦃f : Float64⦄ → ℕ → Store → Session → Outcome (Unit {0}) × Session × Store
    put_cancel_order id st s =
        with_store (verify_user jwt secret now header s) st λ _. cancel_order server id st
