-- ===== src/Queries/Balance/Moves.antt =====
-- What each query of db/queries/balance.go that runs in a transaction does to the totals of USD and
-- of an asset `a`, if it succeeds.
use cex_go.Prelude.{
  ℕ, String, ◌≡◌, refl, true, inl, inr, none, some, ◌∷◌, [], str_eq, ◌&&◌, not, Bool-cases, Option,
}
use cex_go.Database.{
  ◌>>◌, Tx, Db, BalanceRow, Session, user_check, balance_check, round_trip, fail_if,
  check_violation,
}
use cex_go.Prelude.Int.{ℤ, pos, ◌-ℤ◌, leb_ℤ, ltb_ℤ, int_laws}
use cex_go.Database.Table.{select, total-append, select-holds}
use cex_go.Database.Statement.{exists}
use cex_go.Database.Ensures.{
  Ensures, Ensures-mono, Ensures-unless, exec_update-Ensures, Ensures-bind, IsUpdated,
  round_trip-Ensures, Ensures-fail_if,
}
use cex_go.Queries.Balance.{
  put_users, of_user, of_asset, set_user, lock_usd_row, lock_row, lock_balance_tx, unlock_usd_tx,
  upsert_balance, debit_usd_tx, unlock_balance_tx, credit_usd_tx, usd, debit_balance_tx,
  credit_balance_tx, debit_row, debit_usd_row, unlock_row, unlock_usd_row, credit_usd_row,
  upsert_row, of_symbol, new_balance, credit_row,
}
use cex_go.Queries.Balance.Totals.{
  usd_total, asset_total, units_of, Moved, share, positive, Moved-none, users-Moved, balances-Moved,
  guarded_user-Moved, guarded_balance-Moved, units_of-moved, share_zero,
}

module _ (a : String) where
  -- Locking moves money inside a row.
  pub lock_balance_tx-Moved :
      (user : ℕ) (asset : String) (amount : ℤ) (s : Session)
      → Ensures (λ _ db. Moved a (pos 0) (pos 0) s.db db) (lock_balance_tx user asset amount s)
  unfolding lock_balance_tx
  lock_balance_tx-Moved user asset amount s = elim (Bool-cases (str_eq asset usd)) [
    | inl h ↦ rw h (
        guarded_user-Moved a user (λ r. ltb_ℤ r.usd_balance amount) (lock_usd_row amount) (pos 0) s
          (λ r. omega int_laws) (λ q. refl))
    | inr h ↦ rw h (
        guarded_balance-Moved a user asset (λ r. ltb_ℤ r.available amount) (lock_row amount) (pos 0)
          s
          λ r k.
            rw (share_zero a asset) at
              (units_of-moved a user asset r (lock_row amount r) (pos 0) k refl (omega int_laws)))
  ]

  pub unlock_balance_tx-Moved :
      (user : ℕ) (asset : String) (amount : ℤ) (s : Session)
      → Ensures (λ _ db. Moved a (pos 0) (pos 0) s.db db) (unlock_balance_tx user asset amount s)
  unfolding unlock_balance_tx
  unlock_balance_tx-Moved user asset amount s =
      Ensures-unless (leb_ℤ amount (pos 0)) _ s (λ _ db. Moved a (pos 0) (pos 0) s.db db)
        (λ _. Moved-none a s.db)
        λ _.
          guarded_balance-Moved a user asset (λ r. ltb_ℤ r.locked amount) (unlock_row amount)
            (pos 0) s
            λ r k.
              rw (share_zero a asset) at (
                units_of-moved a user asset r (unlock_row amount r) (pos 0) k refl (omega int_laws))

  pub unlock_usd_tx-Moved :
      (user : ℕ) (amount : ℤ) (s : Session)
      → Ensures (λ _ db. Moved a (pos 0) (pos 0) s.db db) (unlock_usd_tx user amount s)
  unfolding unlock_usd_tx
  unlock_usd_tx-Moved user amount s =
      Ensures-unless (leb_ℤ amount (pos 0)) _ s (λ _ db. Moved a (pos 0) (pos 0) s.db db)
        (λ _. Moved-none a s.db)
        λ _.
          guarded_user-Moved a user (λ r. ltb_ℤ r.locked_balance amount) (unlock_usd_row amount)
            (pos 0) s (λ r. omega int_laws) (λ q. refl)

  pub debit_usd_tx-Moved :
      (user : ℕ) (amount : ℤ) (s : Session)
      → Ensures
          (λ _ db. Moved a (pos 0 -ℤ positive amount) (pos 0) s.db db)
          (debit_usd_tx user amount s)
  unfolding debit_usd_tx
  debit_usd_tx-Moved user amount s =
      Ensures-unless (leb_ℤ amount (pos 0)) _ s
        (λ _ db. Moved a (pos 0 -ℤ positive amount) (pos 0) s.db db)
        (λ h. rw h (omega int_laws, omega int_laws, λ u k. k))
        λ h. rw h (
          guarded_user-Moved a user (λ r. ltb_ℤ r.locked_balance amount) (debit_usd_row amount)
            (pos 0 -ℤ amount) s (λ r. omega int_laws) (λ q. refl))

  pub debit_balance_tx-Moved :
      (user : ℕ) (asset : String) (amount : ℤ) (s : Session)
      → Ensures
          (λ _ db. Moved a (pos 0) (share a asset (pos 0 -ℤ positive amount)) s.db db)
          (debit_balance_tx user asset amount s)
  unfolding debit_balance_tx
  debit_balance_tx-Moved user asset amount s =
      Ensures-unless (leb_ℤ amount (pos 0)) _ s
        (λ _ db. Moved a (pos 0) (share a asset (pos 0 -ℤ positive amount)) s.db db)
        (λ h. rw h (omega int_laws, grind (int_laws), λ u k. k))
        λ h. rw h (
          guarded_balance-Moved a user asset (λ r. ltb_ℤ r.locked amount) (debit_row amount)
            (share a asset (pos 0 -ℤ amount)) s
            λ r k.
              units_of-moved a user asset r (debit_row amount r) (pos 0 -ℤ amount) k refl
                (omega int_laws))

  pub updated-Moved :
      (user : ℕ) (amount : ℤ) (before db : Db)
      → exists (of_user user) before.users ≡ true
      → IsUpdated
          (λ x. x.users)
          put_users
          (of_user user)
          (credit_usd_row amount)
          user_check
          before
          db
      → Moved a amount (pos 0) before db
  updated-Moved user amount before db there (inl (missing, _)) =
      absurd (cc (rw (missing, exists) at there))
  updated-Moved user amount before db there (inr (r, found, _, e)) = rw e (
      users-Moved a (of_user user) (credit_usd_row amount) amount before r found (omega int_laws)
        (λ q. refl))

  -- A credit to a user who is there. (An UPDATE that finds no row is no error.)
  pub credit_usd_tx-Moved :
      (user : ℕ) (amount : ℤ) (s : Session)
      → exists (of_user user) s.db.users ≡ true
      → Ensures (λ _ db. Moved a (positive amount) (pos 0) s.db db) (credit_usd_tx user amount s)
  unfolding credit_usd_tx set_user
  credit_usd_tx-Moved user amount s there =
      Ensures-unless (leb_ℤ amount (pos 0)) _ s (λ _ db. Moved a (positive amount) (pos 0) s.db db)
        (λ h. rw h (Moved-none a s.db))
        λ h. rw h (
          Ensures-mono _ (λ _ db. Moved a amount (pos 0) s.db db) _
            (exec_update-Ensures (λ db. db.users) put_users (of_user user) (credit_usd_row amount)
              user_check s)
            λ _ db u. updated-Moved user amount s.db db there u)

  upsert_row-Moved :
      (user : ℕ) (asset : String) (amount : ℤ) (o : Option BalanceRow) (s : Session)
      → select (of_asset user asset) s.db.balances ≡ o
      → Ensures
          (λ _ db. Moved a (pos 0) (share a asset amount) s.db db)
          (upsert_row user asset amount o s)
  unfolding usd_total asset_total
  upsert_row-Moved user asset amount none s e =
      elim (Bool-cases (exists (of_user user) s.db.users && exists (of_symbol asset) s.db.assets)) [
        | inl h ↦ rw h (
          omega int_laws,
          rw (total-append (units_of a) s.db.balances (new_balance user asset amount ∷ []))
              (grind int_laws),
          λ u k. k,
        )
        | inr h ↦ rw h tt
      ]
  upsert_row-Moved user asset amount (some r) s e =
      elim (Bool-cases (balance_check (credit_row amount r))) [
        | inl h ↦ rw h (
            balances-Moved a (of_asset user asset) (credit_row amount) (share a asset amount) s.db r
              e
              (units_of-moved a user asset r (credit_row amount r) amount
                (select-holds (of_asset user asset) s.db.balances r e) refl (omega int_laws)))
        | inr h ↦ rw h tt
      ]

  pub upsert_balance-Moved :
      (user : ℕ) (asset : String) (amount : ℤ) (s : Session)
      → Ensures
          (λ _ db. Moved a (pos 0) (share a asset amount) s.db db)
          (upsert_balance user asset amount s)
  unfolding upsert_balance
  upsert_balance-Moved user asset amount s =
      let refused = not (balance_check (new_balance user asset amount)) in
      let write : Tx (Unit {0}) =
        λ s'. upsert_row user asset amount (select (of_asset user asset) s'.db.balances) s' in
      let Q : Unit {0} → Db → Type 0 = λ _ db. Moved a (pos 0) (share a asset amount) s.db db in
      Ensures-bind (λ _ db. db ≡ s.db) Q round_trip (λ _. fail_if refused check_violation >> write)
        s (round_trip-Ensures s)
        λ _ s' e. Ensures-fail_if refused check_violation write s' Q λ _.
          rw (← e) (
            upsert_row-Moved user asset amount (select (of_asset user asset) s'.db.balances) s'
              refl)

  pub credit_balance_tx-Moved :
      (user : ℕ) (asset : String) (amount : ℤ) (s : Session)
      → Ensures
          (λ _ db. Moved a (pos 0) (share a asset (positive amount)) s.db db)
          (credit_balance_tx user asset amount s)
  unfolding credit_balance_tx
  credit_balance_tx-Moved user asset amount s =
      Ensures-unless (leb_ℤ amount (pos 0)) _ s
        (λ _ db. Moved a (pos 0) (share a asset (positive amount)) s.db db)
        (λ h. rw h (omega int_laws, rw (share_zero a asset) (omega int_laws), λ u k. k))
        λ h. rw h (upsert_balance-Moved user asset amount s)
