-- ===== src/Database.antt =====
-- The PostgreSQL database behind db/queries: the tables of db/migrations/001_initial_schema.up.sql
-- that the code reads and writes, the session of a transaction, and how one SQL statement runs.
-- `Statement` has the shapes of statement that the queries use, `Table` the laws of rows.
mod Connection
mod Rows
pub mod Table
pub mod Statement
pub mod Ensures
pub mod Served
pub mod Keeping
pub mod Fresh
pub mod Atomic
pub mod Listing
unfoldable pub use Connection.*
unfoldable pub use Rows.*
