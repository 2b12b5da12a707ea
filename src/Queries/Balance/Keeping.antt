-- ===== src/Queries/Balance/Keeping.antt =====
-- What the queries of db/queries/balance.go that run in a transaction keep of the tables.
use cex_go.Prelude.{
  ℕ, String, Bool, Bool-cases, ◌≡◌, refl, true, inl, inr, Option, none, some, not, ◌&&◌, str_eq,
}
use cex_go.Prelude.Int.{ℤ, pos, ltb_ℤ, leb_ℤ}
use cex_go.Database.{
  Db, UserRow, BalanceRow, Session, Tx, user_check, balance_check, round_trip, fail_if,
  check_violation, ◌>>◌,
}
use cex_go.Database.Table.{select}
use cex_go.Database.Statement.{exists}
use cex_go.Database.Ensures.{
  Ensures-mono, Ensures-bind, round_trip-Ensures, exec_update-Ensures, guarded_update-Ensures,
}
use cex_go.Queries.Balance.{
  put_users, put_balances, of_user, of_asset, of_symbol, set_user, guarded_user, guarded_balance,
  upsert_row, upsert_balance, new_balance, credit_row, credit_usd_row, debit_usd_row, debit_row,
  unlock_row, unlock_usd_row, lock_row, lock_usd_row, lock_balance_tx, unlock_balance_tx,
  credit_balance_tx, credit_usd_tx, debit_usd_tx, unlock_usd_tx, debit_balance_tx, usd,
}
use cex_go.Queries.Kept.{IsKept, Ends, unless-Ends}

module _ (P : Db → Type 0) (kept : IsKept P) where
  guarded_user-Ends :
      (user : ℕ) (short : UserRow → Bool) (f : UserRow → UserRow) (s : Session)
      → ((q : UserRow) → (f q).id ≡ q.id)
      → P s.db
      → Ends P (guarded_user user short f) s
  unfolding guarded_user
  guarded_user-Ends user short f s same v =
      Ensures-mono _ (λ _ db. P db) _
        (guarded_update-Ensures (λ db. db.users) put_users (of_user user) short f user_check s)
        λ _ db (r, found, _, c, e). rw e (kept.changes_user s.db (of_user user) f r found c same v)

  guarded_balance-Ends :
      (user : ℕ) (asset : String) (short : BalanceRow → Bool) (f : BalanceRow → BalanceRow)
      (s : Session)
      → P s.db
      → Ends P (guarded_balance user asset short f) s
  unfolding guarded_balance
  guarded_balance-Ends user asset short f s v =
      Ensures-mono _ (λ _ db. P db) _
        (guarded_update-Ensures (λ db. db.balances) put_balances (of_asset user asset) short f
          balance_check s)
        λ _ db (r, found, _, c, e).
          rw e (kept.changes_balance s.db (of_asset user asset) f r found c v)

  upsert_row-Ends :
      (user : ℕ) (asset : String) (amount : ℤ) (o : Option BalanceRow) (s : Session)
      → select (of_asset user asset) s.db.balances ≡ o
      → balance_check (new_balance user asset amount) ≡ true
      → P s.db
      → Ends P (upsert_row user asset amount o) s
  upsert_row-Ends user asset amount none s e c v =
      elim (Bool-cases (exists (of_user user) s.db.users && exists (of_symbol asset) s.db.assets)) [
        | inl h ↦ rw h (kept.adds_balance s.db (new_balance user asset amount) c v)
        | inr h ↦ rw h tt
      ]
  upsert_row-Ends user asset amount (some r) s e c v =
      elim (Bool-cases (balance_check (credit_row amount r))) [
        | inl h ↦ rw h (kept.changes_balance s.db (of_asset user asset) (credit_row amount) r e h v)
        | inr h ↦ rw h tt
      ]

  pub upsert_balance-Ends :
      (user : ℕ) (asset : String) (amount : ℤ) (s : Session)
      → P s.db
      → Ends P (upsert_balance user asset amount) s
  unfolding upsert_balance
  upsert_balance-Ends user asset amount s v =
      let accepted = balance_check (new_balance user asset amount) in
      let write : Tx (Unit {0}) =
        λ s'. upsert_row user asset amount (select (of_asset user asset) s'.db.balances) s' in
      let Q : Unit {0} → Db → Type 0 = λ _ db. P db in
      Ensures-bind (λ _ db. db ≡ s.db) Q round_trip
        (λ _. fail_if (not accepted) check_violation >> write) s (round_trip-Ensures s)
        λ _ s' e. elim (Bool-cases accepted) [
          | inr h ↦ rw h tt
          | inl h ↦ rw h (
              upsert_row-Ends user asset amount (select (of_asset user asset) s'.db.balances) s'
                refl h (rw e v))
        ]

  pub lock_balance_tx-Ends :
      (user : ℕ) (asset : String) (amount : ℤ) (s : Session)
      → P s.db
      → Ends P (lock_balance_tx user asset amount) s
  unfolding lock_balance_tx
  lock_balance_tx-Ends user asset amount s v = elim (Bool-cases (str_eq asset usd)) [
    | inl h ↦ rw h (
        guarded_user-Ends user (λ r. ltb_ℤ r.usd_balance amount) (lock_usd_row amount) s (λ q. refl)
          v)
    | inr h ↦
        rw h (guarded_balance-Ends user asset (λ r. ltb_ℤ r.available amount) (lock_row amount) s v)
  ]

  pub unlock_balance_tx-Ends :
      (user : ℕ) (asset : String) (amount : ℤ) (s : Session)
      → P s.db
      → Ends P (unlock_balance_tx user asset amount) s
  unfolding unlock_balance_tx
  unlock_balance_tx-Ends user asset amount s v =
      unless-Ends P (leb_ℤ amount (pos 0)) _ s v
        (guarded_balance-Ends user asset (λ r. ltb_ℤ r.locked amount) (unlock_row amount) s v)

  pub debit_balance_tx-Ends :
      (user : ℕ) (asset : String) (amount : ℤ) (s : Session)
      → P s.db
      → Ends P (debit_balance_tx user asset amount) s
  unfolding debit_balance_tx
  debit_balance_tx-Ends user asset amount s v =
      unless-Ends P (leb_ℤ amount (pos 0)) _ s v
        (guarded_balance-Ends user asset (λ r. ltb_ℤ r.locked amount) (debit_row amount) s v)

  pub credit_balance_tx-Ends :
      (user : ℕ) (asset : String) (amount : ℤ) (s : Session)
      → P s.db
      → Ends P (credit_balance_tx user asset amount) s
  unfolding credit_balance_tx
  credit_balance_tx-Ends user asset amount s v =
      unless-Ends P (leb_ℤ amount (pos 0)) _ s v (upsert_balance-Ends user asset amount s v)

  pub debit_usd_tx-Ends :
      (user : ℕ) (amount : ℤ) (s : Session) → P s.db → Ends P (debit_usd_tx user amount) s
  unfolding debit_usd_tx
  debit_usd_tx-Ends user amount s v = unless-Ends P (leb_ℤ amount (pos 0)) _ s v (
      guarded_user-Ends user (λ r. ltb_ℤ r.locked_balance amount) (debit_usd_row amount) s
        (λ q. refl) v)

  pub unlock_usd_tx-Ends :
      (user : ℕ) (amount : ℤ) (s : Session) → P s.db → Ends P (unlock_usd_tx user amount) s
  unfolding unlock_usd_tx
  unlock_usd_tx-Ends user amount s v = unless-Ends P (leb_ℤ amount (pos 0)) _ s v (
      guarded_user-Ends user (λ r. ltb_ℤ r.locked_balance amount) (unlock_usd_row amount) s
        (λ q. refl) v)

  pub set_user-Ends :
      (user : ℕ) (f : UserRow → UserRow) (s : Session)
      → ((q : UserRow) → (f q).id ≡ q.id)
      → P s.db
      → Ends P (set_user user f) s
  unfolding set_user
  set_user-Ends user f s same v =
      Ensures-mono _ (λ _ db. P db) _
        (exec_update-Ensures (λ db. db.users) put_users (of_user user) f user_check s)
        λ _ db u. elim u [
          | inl (_, e) ↦ rw e v
          | inr (r, found, c, e) ↦ rw e (kept.changes_user s.db (of_user user) f r found c same v)
        ]

  pub credit_usd_tx-Ends :
      (user : ℕ) (amount : ℤ) (s : Session) → P s.db → Ends P (credit_usd_tx user amount) s
  unfolding credit_usd_tx
  credit_usd_tx-Ends user amount s v =
      unless-Ends P (leb_ℤ amount (pos 0)) _ s v
        (set_user-Ends user (credit_usd_row amount) s (λ q. refl) v)
