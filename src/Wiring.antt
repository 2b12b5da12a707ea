-- ===== src/Wiring.antt =====
-- The start of the program: cmd/main.go, and the connections of internal/db/postgres.go and
-- internal/db/redis.go.
mod Origin
mod Postgres
mod Start
pub mod Allowed
pub mod Connecting
unfoldable pub use Origin.*
unfoldable pub use Postgres.*
unfoldable pub use Start.*
