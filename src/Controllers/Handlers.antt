-- ===== src/Controllers/Handlers.antt =====
-- What the handlers of internal/controllers share: a handler refuses a request with a status of HTTP
-- or goes on, and a database transaction is opened, committed, or rolled back.
use cex_go.Prelude.{ℕ}
use cex_go.Database.{Session, Result, Tx, Tick, ok, err, round_trip}

pub data Outcome (A : Type 0) : Type 0 where
  refused : ℕ → Outcome A
  done : A → Outcome A

abbrev pub Handler : Type 0 → Type 0
Handler A = Session → Outcome A × Session

abbrev pub outcome_of : {A : Type 0} → ℕ → Result A → Outcome A
outcome_of status (ok a) = done a
outcome_of status (err _) = refused status

-- `if err != nil { c.JSON(status, …); return }` behind a call
abbrev pub answer : {A : Type 0} → ℕ → Tx A → Handler A
answer status m s = let (r, s') = m s in (outcome_of status r, s')

abbrev pub refuse : {A : Type 0} → ℕ → Handler A
refuse status s = (refused status, s)

abbrev pub after : {A B : Type 0} → Outcome A × Session → (A → Handler B) → Outcome B × Session
after (refused status, s) k = (refused status, s)
after (done a, s) k = k a s

abbrev pub and_then : {A B : Type 0} → Handler A → (A → Handler B) → Handler B
and_then m k s = after (m s) k

abbrev pub rollback : Session → Session → Session
rollback before s = record s { db = before.db }

abbrev pub committed : {A : Type 0} → Session → A → Result Tick × Session → Outcome A × Session
committed before a (ok _, s) = (done a, s)
committed before a (err _, s) = (refused 500, rollback before s)

-- The end of a transaction: `Commit`, or the deferred `Rollback`
abbrev pub close : {A : Type 0} → Session → Outcome A × Session → Outcome A × Session
close before (refused status, s) = (refused status, rollback before s)
close before (done a, s) = committed before a (round_trip s)

abbrev pub opened : {A : Type 0} → Session → Handler A → Result Tick × Session → Outcome A × Session
opened before body (err _, s) = (refused 500, s)
opened before body (ok _, s) = close before (body s)

-- `BeginTx`, the body, and the end
unfoldable pub transaction : {A : Type 0} → Handler A → Handler A
unfolding round_trip
transaction body s = opened s body (round_trip s)
