-- ===== src/Redis.antt =====
-- internal/db/redis.go: the order book in Redis. A market has a sorted set of order ids for each
-- side, and each order a hash with its details.
mod Commands
mod Book
pub mod Scores
pub mod View
pub mod Invariant
pub mod Writes
pub mod Best
pub mod Sides
pub mod Depth
pub mod Loading
unfoldable pub use Commands.*
unfoldable pub use Book.*
