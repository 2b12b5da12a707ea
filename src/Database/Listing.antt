-- ===== src/Database/Listing.antt =====
-- Queries that return rows: the WHERE and ORDER BY clauses, and the loop over `rows.Next()`.
pub mod Sorting
pub mod Fetching
use cex_go.Prelude.{Bool, List, [], ◌∷◌, if◌then◌else◌, zero, suc, ℕ}
use cex_go.Database.Rows.{Db}
use cex_go.Database.Connection.{Session, Result, Tick, Tx, ok, err, ◌>>=◌, ◌>>◌, round_trip}

module _ {R : Type 0} where
  -- The rows that a WHERE clause keeps
  abbrev pub select_all : (R → Bool) → List R → List R
  select_all p [] = []
  select_all p (r ∷ rs) = let rest = select_all p rs in if p r then r ∷ rest else rest

  abbrev pub insert_row : (R → R → Bool) → R → List R → List R
  insert_row le r [] = r ∷ []
  insert_row le r (q ∷ qs) =
      let rest = insert_row le r qs in if le r q then r ∷ q ∷ qs else q ∷ rest

  -- ORDER BY: `le r q` is where `r` may stand in front of `q`. Rows that tie, which the server may
  -- return in any order, keep that of the table.
  abbrev pub order_by : (R → R → Bool) → List R → List R
  order_by le [] = []
  order_by le (r ∷ rs) = insert_row le r (order_by le rs)

  -- LIMIT
  abbrev pub limit_to : ℕ → List R → List R
  limit_to zero rs = []
  limit_to (suc n) [] = []
  limit_to (suc n) (r ∷ rs) = r ∷ limit_to n rs

  abbrev pub next_row : R → Tx (List R) → Result Tick × Session → Result (List R) × Session
  next_row r rest (err e, s) = (ok [], s)
  next_row r rest (ok _, s) = (rest >>= λ rs s'. (ok (r ∷ rs), s')) s

  -- `for rows.Next() { … }`, without a look at `rows.Err()` behind it: where the connection fails
  -- between two rows, the rows before it are the result.
  unfoldable pub fetch : List R → Tx (List R)
  unfolding round_trip
  fetch [] s = (ok [], s)
  fetch (r ∷ rs) s = next_row r (fetch rs) (round_trip s)

  abbrev pub next_checked : R → Tx (List R) → Result Tick × Session → Result (List R) × Session
  next_checked r rest (err e, s) = (err e, s)
  next_checked r rest (ok _, s) = (rest >>= λ rs s'. (ok (r ∷ rs), s')) s

  -- The same, with `return …, rows.Err()` behind it
  unfoldable pub fetch_checked : List R → Tx (List R)
  unfolding round_trip
  fetch_checked [] s = (ok [], s)
  fetch_checked (r ∷ rs) s = next_checked r (fetch_checked rs) (round_trip s)

  -- `Query(…)` and the loop over its rows
  unfoldable pub query_rows : (Db → List R) → Tx (List R)
  unfolding round_trip fetch
  query_rows rows = do round_trip; λ s. fetch (rows s.db) s

  unfoldable pub query_checked : (Db → List R) → Tx (List R)
  unfolding round_trip fetch_checked
  query_checked rows = do round_trip; λ s. fetch_checked (rows s.db) s
