-- ===== src/Controllers.antt =====
-- internal/controllers: the handlers. `Handlers` has what they share, `Orders` is order.go.
mod Handlers
unfoldable pub use Handlers.*
pub mod Orders
pub mod Deposits
pub mod Users
pub mod Answers
pub mod Assets
pub mod Markets
pub mod Reads
pub mod Exchange
