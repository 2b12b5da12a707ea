-- ===== src/Lib.antt =====
-- The backend of a spot exchange, in Go: HTTP handlers for users, markets, deposits and orders, a
-- matching engine, balances and orders in PostgreSQL, and the order book in Redis.
--
-- How the parts interact. A route passes VerifyUser or VerifyAdmin, which read the token of the request
-- and look the user up, and then runs its handler. `CreateOrder` locks the funds of an order, inserts
-- it, matches it against the best levels that Redis shows, and settles the trades, all in one database
-- transaction; after the commit it writes the fills and what is left of the order to Redis.
-- `CancelOrder` marks an order and unlocks what is left of it, and takes it off the book before its
-- commit.
--
-- Files, and the code that each is about:
-- - Prelude, with Prelude/Int (signed integers), Prelude/Lists and Prelude/Tests: shared names and lemmas.
-- - Models: internal/models and the constants of its order.go.
-- - Database, with Rows, Connection, Table and Statement: the tables and CHECKs of
--   db/migrations/001_initial_schema.up.sql, the session of a transaction and the shapes of SQL statement
--   that db/queries uses. Listing has the queries that return rows, with Listing/Sorting and
--   Listing/Fetching. Ensures has the rules for what a call ensures if it succeeds, Served those for calls
--   that the server answers, Keeping those for reads, Atomic those for a statement that fails, and Fresh
--   what an INSERT has checked.
-- - Queries/Balance, Queries/Alone, Queries/Assets, Queries/Portfolio: db/queries/balance.go, in the
--   caller's transaction (`LockBalanceTx` is lock_balance_tx and so on), in a transaction of their own
--   (`LockBalance` is lock_balance), the assets, and the balances and portfolio of a user. Balance/Ledger,
--   Balance/Steps and Balance/Refinement have the abstract ledger, Balance/Restoring a lock and its release.
--   Queries/Order: db/queries/order.go, in the caller's transaction; Order/Alone has its writes outside of
--   one and Order/Lists its reads. Queries/Trades, with Trades/Listed: db/queries/trades.go.
--   Queries/Kept lists what the statements do to the rows, for the properties that all of them keep.
--   Queries/Users, with Users/Unlock: db/queries/user.go. Queries/Markets: db/queries/market.go.
-- - Auth, with Auth/Header: internal/auth/auth.go and the splitting of a request's header. Middleware:
--   internal/middleware/verifyUser.go. Routes: internal/routes.
-- - Redis: internal/db/redis.go. Commands has what is used of the server, Book the functions
--   (`BestAskFromRedis` is best_ask_from_redis), Loading `LoadOrderBookToRedis`. View has what a store
--   holds and what is documented of the commands and the reads. Scores is about the scores, Invariant
--   about the book as a whole, Writes about what the updates leave, Best about the best level, Sides and
--   Depth about the whole book, and Loading/Open about a start of the program.
-- - Matching: internal/matching/matchingengine.go. Fill has `fillAgainstLevel` and
--   `fillAgainstLevelForMarketBuy`, Loop the loop that the three matching loops share, Engine
--   `MatchLimitOrders` and `MatchMarketOrders`, Settle `ApplyOrderResultToDBTx` and
--   `ApplyOrderResultToRedis`. Limits, Ending, Market and Stale are about matching, and Moves, Settlement,
--   Records, Conservation and Keeping about settlement, and Synced about what goes to Redis.
-- - Controllers: internal/controllers. Orders has `CreateOrder` and `CancelOrder` of order.go, Reads the
--   rest of it; Deposits and Assets are balance.go, Users is users.go, Markets is markets.go. A query and a
--   handler of the same name, such as `CreateMarket`, have the same name here, in two modules.
--   `GetMarketByID` of db/queries/market.go stands with Orders. Orders/Entry, Money, Keeping and Cancel are
--   about the money and the tables, Again, Cancelled and Gone about the order that is cancelled, and
--   Resting, Releasing, Yielding, Placing and Restored about an order that is placed, not matched, and
--   cancelled. Exchange has the databases that the handlers make of the empty one, one call after another.
-- - Rooms, with Rooms/Listeners and Rooms/Broadcast: internal/ws/wsServer.go (`joinRoom` is join_room,
--   `leaveRoom` leave_room, `listenRedis` listen_redis).
-- - Wiring: the start of the program. Postgres has `NewPostgres` of internal/db/postgres.go, Start the
--   client of Redis and `main` of cmd/main.go, Origin the `AllowOriginFunc` of its CORS settings; Allowed
--   and Connecting are about them.
-- - Float: the products, quotients and `==` of float64, and what a column makes of a product. Examples: runs
--   on concrete data.
--
-- How the code is represented. An amount is an integer that counts 10^-8, the scale of the NUMERIC
-- columns; sums, differences and comparisons of amounts are exact, while the product and the quotient of
-- float64 and its `==` on two sums are parameters. A product of price and quantity that goes to the
-- database (`cost`, `quantity_to_lock`, `release`) counts 10^-16 and is added up as it is; each
-- statement rounds it by a parameter `column`. PostgreSQL rounds what the statement computes from it,
-- which comes to another digit where the product ends in half a unit of 10^-8, and to another answer
-- where less than a unit is missing; the theorems on totals and on cancelling assume that eight decimals
-- hold the products (`IsWhole`), so that no column rounds. A score of the book is exact, and the server
-- may order two scores either way whose distance is within `gap`, a bound on the rounding of float64.
-- Binary rounding of sums is not modelled otherwise. An id is a number, 0 for the empty string. A call
-- of a query takes the session and returns a result and a session; what the database server does of its
-- own accord (an error, a new id, the time) is a list of answers, one for each statement and for each
-- row of a list, and without an answer left every statement fails. A transaction that fails gives the
-- database back as it was; so does a commit that is answered with an error, which leaves aside one that
-- was done and whose answer was lost. The order of text in the database's collation, the Redis server (a
-- store, the reads, and a pipeline that may fail), database/sql and the library for tokens are
-- parameters.
--
-- Bounds. The loop of the matching engine runs until its context's deadline of 10 seconds. The model
-- gives it the list of the reads that fit in that time, each with the store that it finds; the theorems
-- hold for every list, and so need no bound on its length.
--
-- Not modelled: logging and the texts of answers; the settings of CORS other than the origins, and the
-- registration of routes and sockets with gin (cmd/main.go); `Close` and `FlushDB` of the Redis client;
-- the web client; the rounding of a market's fees to two digits; and other sessions that change the
-- database at the same time, which the row locks of the transactions keep from the rows in use.
pub mod Prelude
pub mod Models
pub mod Database
pub mod Queries
pub mod Auth
pub mod Float
pub mod Redis
pub mod Matching
pub mod Controllers
pub mod Middleware
pub mod Routes
pub mod Rooms
pub mod Wiring
pub mod Examples
