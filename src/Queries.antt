-- ===== src/Queries.antt =====
-- db/queries: the SQL of the program, a file of queries to a module.
pub mod Balance
pub mod Order
pub mod Trades
pub mod Alone
pub mod Kept
pub mod Users
pub mod Assets
pub mod Markets
pub mod Portfolio
