-- ===== src/Matching.antt =====
-- internal/matching/matchingengine.go: the matching engine. `Fill` fills an incoming order against
-- one level, `Loop` is the loop that the three matching loops of the engine share, `Engine` has
-- `MatchLimitOrders` and `MatchMarketOrders`.
mod Fill
mod Loop
mod Engine
mod Settle
pub mod Moves
pub mod Limits
pub mod Ending
pub mod Market
pub mod Stale
pub mod Settlement
pub mod Records
pub mod Conservation
pub mod Synced
pub mod Keeping
unfoldable pub use Fill.*
unfoldable pub use Loop.*
unfoldable pub use Engine.*
unfoldable pub use Settle.*
