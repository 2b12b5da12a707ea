-- ===== src/Queries/Alone/Atomic.antt =====
-- The queries that run in a transaction of their own happen whole or not at all.
use cex_go.Prelude.{ℕ, String, ◌≡◌, refl, ap, ◌∙◌}
use cex_go.Prelude.Int.{ℤ, pos, ◌+ℤ◌, ◌-ℤ◌, ltb_ℤ, int_laws}
use cex_go.Database.{Db, Session, Result, Tick, Tx, ok, err, round_trip}
use cex_go.Database.Statement.{finished, ended, begun, in_transaction}
use cex_go.Database.Ensures.{round_trip-keeps, Ensures, round_trip-Ensures}
use cex_go.Queries.Balance.{guarded_balance, upsert_balance, debit_row}
use cex_go.Queries.Balance.Totals.{Moved, share, share_zero, guarded_balance-Moved, units_of-moved}
use cex_go.Queries.Balance.Moves.{upsert_balance-Moved}
use cex_go.Matching.Moves.{Moved-eq, Moved-bind, share_add}
use cex_go.Queries.Alone.{transfer_from_locked}

-- An error left the database as it was; otherwise it has `Q`.
abbrev pub Whole : {A : Type 0} → (Db → Type 0) → Db → Result A × Session → Type 0
Whole Q before (ok _, s) = Q s.db
Whole Q before (err _, s) = s.db ≡ before

module _ {A : Type 0} (Q : Db → Type 0) where
  finished-Whole :
      (before : Db) (a : A) (d : Db) (r : Result Tick × Session)
      → Ensures (λ _ db. db ≡ d) r
      → Q d
      → Whole Q before (finished before a r)
  finished-Whole before a d (ok _, s) e q = rw e q
  finished-Whole before a d (err _, s) e q = refl

  ended-Whole :
      (before : Db) (r : Result A × Session)
      → Ensures (λ _ db. Q db) r
      → Whole Q before (ended before r)
  ended-Whole before (ok a, s) q =
      finished-Whole before a s.db (round_trip s) (round_trip-Ensures s) q
  ended-Whole before (err _, s) q = refl

  begun-Whole :
      (before : Db) (body : Tx A) (r : Result Tick × Session)
      → r.1.db ≡ before
      → ((s : Session) → s.db ≡ before → Ensures (λ _ db. Q db) (body s))
      → Whole Q before (begun before body r)
  begun-Whole before body (ok _, s) e h = ended-Whole before (body s) (h s e)
  begun-Whole before body (err _, s) e h = e

  pub in_transaction-Whole :
      (body : Tx A) (s : Session)
      → ((s' : Session) → s'.db ≡ s.db → Ensures (λ _ db. Q db) (body s'))
      → Whole Q s.db (in_transaction body s)
  unfolding in_transaction
  in_transaction-Whole body s h = begun-Whole s.db body (round_trip s) (round_trip-keeps s) h

module _ (a : String) where
  -- `TransferFromLocked`: on an error the database is as it was, and on success the USD of all users
  -- and the units of every asset in all balances, available and locked, are what they were.
  pub transfer_from_locked-conserves :
      (from_user to_user : ℕ) (asset : String) (amount : ℤ) (s : Session)
      → Whole
          (Moved a (pos 0) (pos 0) s.db)
          s.db
          (transfer_from_locked from_user to_user asset amount s)
  unfolding transfer_from_locked
  transfer_from_locked-conserves from_user to_user asset amount s =
      let out = share a asset (pos 0 -ℤ amount) in
      let into = share a asset amount in
      in_transaction-Whole (Moved a (pos 0) (pos 0) s.db) _ s λ s' e. rw (← e) (
        Moved-eq a (pos 0 +ℤ pos 0) (out +ℤ into) (pos 0) (pos 0) s' _ (omega int_laws)
          (share_add a asset (pos 0 -ℤ amount) amount
            ∙ ap (share a asset) (omega int_laws)
            ∙ share_zero a asset)
          (Moved-bind a (pos 0) out (pos 0) into
            (guarded_balance from_user asset (λ r. ltb_ℤ r.locked amount) (debit_row amount))
            (λ _. upsert_balance to_user asset amount) s'
            (guarded_balance-Moved a from_user asset (λ r. ltb_ℤ r.locked amount) (debit_row amount)
              out s'
              λ r k.
                units_of-moved a from_user asset r (debit_row amount r) (pos 0 -ℤ amount) k refl
                  (omega int_laws))
            λ _ s'' _. upsert_balance-Moved a to_user asset amount s''))
