-- ===== src/Controllers/Exchange/Reached.antt =====
-- What every call keeps that the statements keep.
use cex_go.Float.{Float64}
use cex_go.Database.{Db, Session}
use cex_go.Redis.{Server}
use cex_go.Queries.Kept.{IsKept}
use cex_go.Controllers.Orders.Keeping.{create_order-keeps, cancel_order-keeps}
use cex_go.Controllers.Exchange.{
  Call, registering, depositing, listing_asset, inactivating, listing_market, ordering, cancelling,
  serve,
}
use cex_go.Controllers.Exchange.Deposited.{deposit-keeps}
use cex_go.Controllers.Exchange.Administered.{
  register_user-keeps, create_asset-keeps, inactivate_asset-keeps, create_market-keeps,
}

module _ (server : Server) ⦃f : Float64⦄ (P : Db → Type 0) (kept : IsKept P) where
  pub serve-keeps : (c : Call server) (s : Session) → P s.db → P (serve server c s).db
  unfolding serve
  serve-keeps (registering req) s v = register_user-keeps P kept.stored req s v
  serve-keeps (depositing req user) s v = deposit-keeps P kept req user s v
  serve-keeps (listing_asset req) s v = create_asset-keeps P kept.stored req s v
  serve-keeps (inactivating symbol) s v = inactivate_asset-keeps P kept.stored symbol s v
  serve-keeps (listing_market req) s v = create_market-keeps P kept.stored req s v
  serve-keeps (ordering req user clock reads st) s v =
      create_order-keeps P kept server req user clock reads st s v
  serve-keeps (cancelling id st) s v = cancel_order-keeps P kept server id st s v
