-- ===== src/Queries/Users/Unlock.antt =====
-- `UnlockUSD` of db/queries/user.go. Its deferred function commits or rolls back by the variable
-- `err` of the body, and what it stores there does not reach the caller.
use cex_go.Prelude.{ℕ, ◌&&◌, if◌then◌else◌}
use cex_go.Prelude.Int.{ℤ, ltb_ℤ, leb_ℤ}
use cex_go.Database.{
  Db, UserRow, Tick, Tx, Session, Result, ok, err, no_rows, round_trip, user_check,
}
use cex_go.Database.Statement.{query_row, exec_update}
use cex_go.Queries.Balance.{of_user, put_users, unlock_usd_row}

-- `return answer` where `err` is nil: the commit may fail unseen.
abbrev pub commit_unseen :
    Db → Result (Unit {0}) → Result Tick × Session → Result (Unit {0}) × Session
commit_unseen before answer (ok _, s) = (answer, s)
commit_unseen before answer (err _, s) = (answer, record s { db = before })

abbrev pub unlocked_usd : Db → Result (Unit {0}) × Session → Result (Unit {0}) × Session
unlocked_usd before (err e, s) = (err e, record s { db = before })
unlocked_usd before (ok _, s) = commit_unseen before (ok tt) (round_trip s)

abbrev pub read_locked : Db → ℕ → ℤ → Result UserRow × Session → Result (Unit {0}) × Session
read_locked before user amount (err e, s) = (err e, record s { db = before })
read_locked before user amount (ok r, s) =
    if ltb_ℤ r.locked_balance amount
    then commit_unseen before (err no_rows) (round_trip s)
    else unlocked_usd before (
        exec_update (λ db. db.users) put_users
          (λ q. of_user user q && leb_ℤ amount q.locked_balance) (unlock_usd_row amount) user_check
          s)

abbrev pub unlock_begun : ℕ → ℤ → Result Tick × Session → Result (Unit {0}) × Session
unlock_begun user amount (err e, s) = (err e, s)
unlock_begun user amount (ok _, s) =
    read_locked s.db user amount (query_row (λ db. db.users) put_users (of_user user) s)

unfoldable pub unlock_usd : ℕ → ℤ → Tx (Unit {0})
unfolding round_trip query_row exec_update
unlock_usd user amount s = unlock_begun user amount (round_trip s)
