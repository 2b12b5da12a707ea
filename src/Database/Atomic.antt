-- ===== src/Database/Atomic.antt =====
-- A single statement happens whole or not at all.
use cex_go.Prelude.{
  Bool, Bool-cases, true, false, not, ◌≡◌, refl, Option, none, some, List, inl, inr,
}
use cex_go.Database.Rows.{Db}
use cex_go.Database.Connection.{
  Session, Result, Tx, Tick, ok, err, ◌>>=◌, ◌>>◌, fail_if, Error, round_trip, check_violation,
}
use cex_go.Database.Table.{select, is_some}
use cex_go.Database.Statement.{store, write_row, exec_update, exec_insert}
use cex_go.Database.Ensures.{Ensures, round_trip-keeps}

-- On an error the database is as it was.
abbrev pub KeptOnError : {A : Type 0} → Db → Result A × Session → Type 0
KeptOnError before (ok _, s) = Unit
KeptOnError before (err _, s) = s.db ≡ before

pub bind-KeptOnError :
    {A B : Type 0} (before : Db) (r : Result A × Session) (f : A → Tx B)
    → r.1.db ≡ before
    → ((a : A) (s : Session) → s.db ≡ before → KeptOnError before (f a s))
    → KeptOnError before (((λ _. r) >>= f) r.1)
bind-KeptOnError before (err _, s) f e h = e
bind-KeptOnError before (ok a, s) f e h = h a s e

pub fail_if-KeptOnError :
    {A : Type 0} (before : Db) (c : Bool) (x : Error) (m : Tx A) (s : Session)
    → s.db ≡ before
    → KeptOnError before (m s)
    → KeptOnError before ((fail_if c x >> m) s)
fail_if-KeptOnError before true x m s e h = e
fail_if-KeptOnError before false x m s e h = h

-- What held before and holds after a success holds in any case.
pub kept_or :
    {A : Type 0} (P : Db → Type 0) (before : Db) (r : Result A × Session)
    → P before
    → KeptOnError before r
    → Ensures (λ _ db. P db) r
    → P r.1.db
kept_or P before (ok _, s) v k e = e
kept_or P before (err _, s) v k e = rw k v

module _ {R : Type 0} (get : Db → List R) (put : Db → List R → Db) where
  store-KeptOnError :
      (p : R → Bool) (f : R → R) (check : R → Bool) (o : Option R) (s : Session)
      → KeptOnError s.db (store get put p f check o s)
  store-KeptOnError p f check none s = tt
  store-KeptOnError p f check (some r) s = elim (Bool-cases (check (f r))) [
    | inl h ↦ rw h tt
    | inr h ↦ rw h refl
  ]

  pub exec_update-KeptOnError :
      (p : R → Bool) (f : R → R) (check : R → Bool) (s : Session)
      → KeptOnError s.db (exec_update get put p f check s)
  unfolding exec_update
  exec_update-KeptOnError p f check s =
      bind-KeptOnError s.db (round_trip s)
        (λ _ s'. store get put p f check (select p (get s'.db)) s') (round_trip-keeps s)
        λ _ s' e. rw (← e) (store-KeptOnError p f check (select p (get s'.db)) s')

  write_row-KeptOnError :
      (row : R) (clash : R → R → Bool) (known : R → Db → Bool) (s : Session)
      → KeptOnError s.db (write_row get put row clash known s)
  write_row-KeptOnError row clash known s =
      elim (Bool-cases (is_some (select (clash row) (get s.db)))) [
        | inl h ↦ rw h refl
        | inr h ↦ elim (Bool-cases (known row s.db)) [
          | inl k ↦ rw (h, k) tt
          | inr k ↦ rw (h, k) refl
        ]
      ]

  pub exec_insert-KeptOnError :
      (make : Tick → R) (check : R → Bool) (clash : R → R → Bool) (known : R → Db → Bool)
      (s : Session)
      → KeptOnError s.db (exec_insert get put make check clash known s)
  unfolding exec_insert
  exec_insert-KeptOnError make check clash known s =
      bind-KeptOnError s.db (round_trip s)
        (λ t.
          fail_if (not (check (make t))) check_violation >> write_row get put (make t) clash known)
        (round_trip-keeps s)
        λ t s' e.
          fail_if-KeptOnError s.db (not (check (make t))) check_violation
            (write_row get put (make t) clash known) s' e
            (rw (← e) (write_row-KeptOnError (make t) clash known s'))
