-- ===== src/Controllers/Exchange.antt =====
-- internal/controllers: the handlers that write to the database, one after another.
pub mod Deposited
pub mod Administered
pub mod Reached
pub mod Balanced
use cex_go.Prelude.{ℕ, String, Option, List, [], ◌∷◌}
use cex_go.Prelude.Int.{ℤ}
use cex_go.Float.{Float64}
use cex_go.Models.{
  CreateOrderRequest, CreateAssetRequest, CreateMarketRequest, UserRegistrationRequest,
}
use cex_go.Database.{Db, Session, Tick}
use cex_go.Redis.{Server}
use cex_go.Matching.{Read}
use cex_go.Controllers.Deposits.{DepositRequest, deposit}
use cex_go.Controllers.Users.{register_user}
use cex_go.Controllers.Assets.{create_asset, inactivate_asset}
use cex_go.Controllers.Markets.{create_market}
use cex_go.Controllers.Orders.{create_order, cancel_order}

-- The tables after the migration
abbrev pub empty_db : Db
empty_db = record { users = []; balances = []; orders = []; trades = []; markets = []; assets = [] }

module _ (server : Server) ⦃f : Float64⦄ where
  open server use {Store}

  -- A call of a handler with what it is given
  pub data Call : Type 0 where
    registering : Option UserRegistrationRequest → Call
    depositing : Option DepositRequest → Option ℕ → Call
    listing_asset : Option CreateAssetRequest → Call
    inactivating : String → Call
    listing_market : Option CreateMarketRequest → Call
    ordering : Option CreateOrderRequest → Option ℕ → ℤ → List (Read Store) → Store → Call
    cancelling : ℕ → Store → Call

  -- The session behind the call, whatever was answered
  unfoldable pub serve : Call → Session → Session
  serve (registering req) s = (register_user req s).1
  serve (depositing req user) s = (deposit req user s).1
  serve (listing_asset req) s = (create_asset req s).1
  serve (inactivating symbol) s = (inactivate_asset symbol s).1
  serve (listing_market req) s = (create_market req s).1
  serve (ordering req user clock reads st) s =
      let (_, s', _) = create_order server req user clock reads st s in s'
  serve (cancelling id st) s = let (_, s', _) = cancel_order server id st s in s'

  -- Calls, each with the answers of the database server to its statements
  abbrev pub History : Type 0
  History = List (Call × List Tick)

  -- The database behind them
  unfoldable pub replay : History → Db → Db
  replay [] db = db
  replay ((c, ticks) ∷ h) db = replay h (serve c (record { db = db; ticks = ticks })).db
