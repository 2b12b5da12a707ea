-- ===== src/Database/Fresh.antt =====
-- The unique keys that an INSERT checks, and the new row behind it.
use cex_go.Prelude.{
  ◌++◌, ◌∷◌, [], not, ◌≡◌, refl, Bool, true, false, none, some, List, inl, inr, arith, Bool-cases,
  Option,
}
use cex_go.Database.Rows.{Db}
use cex_go.Database.Connection.{Session, ◌>>◌, fail_if, round_trip, Tick, check_violation}
use cex_go.Database.Table.{select, is_some}
use cex_go.Database.Statement.{write_row, exec_insert}
use cex_go.Database.Ensures.{Ensures, Ensures-bind, Ensures-fail_if, round_trip-Ensures}

module _ {R : Type 0} where
  none_of : (o : Option R) → is_some o ≡ false → o ≡ none
  none_of none h = refl
  none_of (some r) h = absurd (cc h)

  -- The new row is found where no row was found before.
  pub select-append :
      (p : R → Bool) (r : R) (rs : List R)
      → select p rs ≡ none
      → p r ≡ true
      → select p (rs ++ (r ∷ [])) ≡ some r
  unfolding select
  select-append p r [] h k = ground (arith, k)
  select-append p r (q ∷ qs) h k = ground (arith, select-append p r qs)

  pub select-none :
      (p q : R → Bool) (rs : List R)
      → ((r : R) → q r ≡ true → p r ≡ true)
      → select p rs ≡ none
      → select q rs ≡ none
  unfolding select
  select-none p q [] h e = refl
  select-none p q (r ∷ rs) h e = ground (arith, h r, select-none p q rs h)

module _ {R : Type 0} (get : Db → List R) (put : Db → List R → Db) (make : Tick → R)
    (check : R → Bool) (clash : R → R → Bool) (known : R → Db → Bool) where
  abbrev pub IsFresh : Db → R → Db → Type 0
  IsFresh before row db =
      (t : Tick) × (row ≡ make t)
      × (select (clash row) (get before) ≡ none)
      × (db ≡ put before (get before ++ (row ∷ [])))

  write_row-Fresh :
      (t : Tick) (s : Session) → Ensures (IsFresh s.db) (write_row get put (make t) clash known s)
  write_row-Fresh t s = elim (Bool-cases (is_some (select (clash (make t)) (get s.db)))) [
    | inl h ↦ rw h tt
    | inr h ↦ elim (Bool-cases (known (make t) s.db)) [
      | inl k ↦ rw (h, k) (t, refl, none_of (select (clash (make t)) (get s.db)) h, refl)
      | inr k ↦ rw (h, k) tt
    ]
  ]

  pub exec_insert-Fresh :
      (s : Session) → Ensures (IsFresh s.db) (exec_insert get put make check clash known s)
  unfolding exec_insert
  exec_insert-Fresh s =
      Ensures-bind (λ _ db. db ≡ s.db) (IsFresh s.db) round_trip
        (λ t.
          fail_if (not (check (make t))) check_violation >> write_row get put (make t) clash known)
        s (round_trip-Ensures s)
        λ t s' e.
          Ensures-fail_if (not (check (make t))) check_violation
            (write_row get put (make t) clash known) s' (IsFresh s.db)
            λ _. rw (← e) (write_row-Fresh t s')
