-- ===== src/Examples.antt =====
-- Runs of the program on concrete data: `Data` has a database, a book and requests, `Matches` what
-- matching does with them, and `Runs` what settlement, the handlers and the rooms do.
mod Data
mod Matches
mod Runs
mod Accounts
mod Tables
mod Holdings
mod Listening
mod Log
mod Books
mod Starts
mod Returns
mod Days
