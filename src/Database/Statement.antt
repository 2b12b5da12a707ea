-- ===== src/Database/Statement.antt =====
-- The shapes of SQL statement that the queries use, over one table of the database: `get` reads the
-- table and `put` stores it.
use cex_go.Prelude.{Bool, not, Option, none, some, List, ◌++◌, ◌∷◌, [], if◌then◌else◌}
use cex_go.Database.Rows.{Db}
use cex_go.Database.Connection.{
  Result, Session, Tx, ok, err, no_rows, check_violation, unique_violation, foreign_key_violation,
  ◌>>=◌, ◌>>◌, round_trip, fail_if, Tick, pure,
}
use cex_go.Database.Table.{select, update, is_some}

module _ {R : Type 0} (get : Db → List R) (put : Db → List R → Db) where
  -- `Scan` of the row that a query found
  abbrev pub scan : Option R → Tx R
  scan none s = (err no_rows, s)
  scan (some r) s = (ok r, s)

  -- A row that a statement joins to another, in the same round trip
  unfoldable pub read_row : (R → Bool) → Tx R
  read_row p s = scan (select p (get s.db)) s

  -- `SELECT … WHERE p` into variables, `QueryRow(…).Scan(…)`
  unfoldable pub query_row : (R → Bool) → Tx R
  unfolding round_trip
  query_row p = do round_trip; λ s. scan (select p (get s.db)) s

  -- The row that an UPDATE found is stored under `f`, unless a CHECK refuses it. No row that matches
  -- is no error.
  abbrev pub store : (R → Bool) → (R → R) → (R → Bool) → Option R → Tx (Unit {0})
  store p f check none s = (ok tt, s)
  store p f check (some r) s =
      if check (f r)
      then (ok tt, record s { db = put s.db (update p f (get s.db)) })
      else (err check_violation, s)

  -- `UPDATE … SET f WHERE p`
  unfoldable pub exec_update : (R → Bool) → (R → R) → (R → Bool) → Tx (Unit {0})
  unfolding round_trip
  exec_update p f check = do round_trip; λ s. store p f check (select p (get s.db)) s

  -- The same, and whether `RowsAffected` counts a row
  unfoldable pub exec_affected : (R → Bool) → (R → R) → (R → Bool) → Tx Bool
  unfolding round_trip
  exec_affected p f check = do
    round_trip
    λ s. (store p f check (select p (get s.db)) >> pure (is_some (select p (get s.db)))) s

  -- `SELECT … WHERE p FOR UPDATE`, an early return of `sql.ErrNoRows` if the row is `short`, and
  -- `UPDATE … SET f WHERE p`
  unfoldable pub guarded_update : (R → Bool) → (R → Bool) → (R → R) → (R → Bool) → Tx (Unit {0})
  unfolding query_row exec_update
  guarded_update p short f check = do
    row ← query_row p
    fail_if (short row) no_rows
    exec_update p f check

  -- `INSERT INTO … VALUES … RETURNING …`: the row that the server makes of the values must meet its
  -- CHECKs, clash with no row in a unique key, and have its references.
  abbrev pub write_row : R → (R → R → Bool) → (R → Db → Bool) → Tx R
  write_row row clash known s =
      if is_some (select (clash row) (get s.db))
      then (err unique_violation, s)
      else if known row s.db
      then (ok row, record s { db = put s.db (get s.db ++ (row ∷ [])) })
      else (err foreign_key_violation, s)

  unfoldable pub exec_insert : (Tick → R) → (R → Bool) → (R → R → Bool) → (R → Db → Bool) → Tx R
  unfolding round_trip
  exec_insert make check clash known = do
    t ← round_trip
    fail_if (not (check (make t))) check_violation
    write_row (make t) clash known

-- A row with this clause is there.
abbrev pub exists : {R : Type 0} → (R → Bool) → List R → Bool
exists p rows = is_some (select p rows)

-- `tx.Commit()` and the deferred `tx.Rollback()`: a body or a commit that fails leaves the database
-- as it was.
abbrev pub finished : {A : Type 0} → Db → A → Result Tick × Session → Result A × Session
finished before a (ok _, s) = (ok a, s)
finished before a (err e, s) = (err e, record s { db = before })

abbrev pub ended : {A : Type 0} → Db → Result A × Session → Result A × Session
ended before (ok a, s) = finished before a (round_trip s)
ended before (err e, s) = (err e, record s { db = before })

abbrev pub begun : {A : Type 0} → Db → Tx A → Result Tick × Session → Result A × Session
begun before body (ok _, s) = ended before (body s)
begun before body (err e, s) = (err e, s)

-- `db.Begin()`, the body, and the end
unfoldable pub in_transaction : {A : Type 0} → Tx A → Tx A
unfolding round_trip
in_transaction body s = begun s.db body (round_trip s)
