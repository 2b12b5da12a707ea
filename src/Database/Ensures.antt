-- ===== src/Database/Ensures.antt =====
-- Partial correctness of a call: what holds of its result and of the database behind it, if it
-- succeeded.
use cex_go.Prelude.{
  ◌++◌, ◌∷◌, [], not, ◌≡◌, refl, Bool, true, false, Option, none, some, List, inl, inr, ◌⊎◌, arith,
  Bool-cases,
}
use cex_go.Database.Rows.{Db}
use cex_go.Database.Connection.{
  Session, Result, Tx, ok, err, ◌>>=◌, ◌>>◌, no_rows, fail_if, unless, round_trip, Error, Tick,
  check_violation,
}
use cex_go.Database.Table.{select, update, is_some}
use cex_go.Database.Statement.{
  scan, store, write_row, read_row, exec_insert, query_row, exec_update, guarded_update,
}

abbrev pub Ensures : {A : Type 0} → (A → Db → Type 0) → Result A × Session → Type 0
Ensures Q (ok a, s) = Q a s.db
Ensures Q (err e, s) = Unit

pub Ensures-mono :
    {A : Type 0} (P Q : A → Db → Type 0) (r : Result A × Session)
    → Ensures P r
    → ((a : A) (db : Db) → P a db → Q a db)
    → Ensures Q r
Ensures-mono P Q (ok a, s) p h = h a s.db p
Ensures-mono P Q (err e, s) p h = tt

after_ok :
    {A B : Type 0} (P : A → Db → Type 0) (Q : B → Db → Type 0) (f : A → Tx B)
    (r : Result A × Session)
    → Ensures P r
    → ((a : A) (s' : Session) → P a s'.db → Ensures Q (f a s'))
    → Ensures Q (((λ _. r) >>= f) r.1)
after_ok P Q f (ok a, s) p h = h a s p
after_ok P Q f (err e, s) p h = tt

-- The rule of a sequence.
pub Ensures-bind :
    {A B : Type 0} (P : A → Db → Type 0) (Q : B → Db → Type 0) (m : Tx A) (f : A → Tx B)
    (s : Session)
    → Ensures P (m s)
    → ((a : A) (s' : Session) → P a s'.db → Ensures Q (f a s'))
    → Ensures Q ((m >>= f) s)
Ensures-bind P Q m f s = after_ok P Q f (m s)

pub Ensures-unless :
    (c : Bool) (m : Tx (Unit {0})) (s : Session) (Q : Unit {0} → Db → Type 0)
    → (c ≡ true → Q tt s.db)
    → (c ≡ false → Ensures Q (m s))
    → Ensures Q (unless c m s)
Ensures-unless true m s Q h k = h refl
Ensures-unless false m s Q h k = k refl

-- A test that returns an error in front of the rest.
pub Ensures-fail_if :
    {A : Type 0} (c : Bool) (e : Error) (m : Tx A) (s : Session) (Q : A → Db → Type 0)
    → (c ≡ false → Ensures Q (m s))
    → Ensures Q ((fail_if c e >> m) s)
Ensures-fail_if true e m s Q h = tt
Ensures-fail_if false e m s Q h = h refl

pub round_trip-Ensures : (s : Session) → Ensures (λ _ db. db ≡ s.db) (round_trip s)
unfolding round_trip
round_trip-Ensures s = ground arith

pub round_trip-keeps : (s : Session) → (round_trip s).1.db ≡ s.db
unfolding round_trip
round_trip-keeps s = ground arith

module _ {R : Type 0} (get : Db → List R) (put : Db → List R → Db) (p : R → Bool) where
  scan-Ensures :
      (o : Option R) (s : Session) → Ensures (λ r db. (db ≡ s.db) × (o ≡ some r)) (scan get put o s)
  scan-Ensures none s = tt
  scan-Ensures (some r) s = (refl, refl)

  pub query_row-Ensures :
      (s : Session)
      → Ensures (λ r db. (db ≡ s.db) × (select p (get s.db) ≡ some r)) (query_row get put p s)
  unfolding query_row
  query_row-Ensures s =
      Ensures-bind (λ _ db. db ≡ s.db) (λ r db. (db ≡ s.db) × (select p (get s.db) ≡ some r))
        round_trip (λ _ s'. scan get put (select p (get s'.db)) s') s (round_trip-Ensures s)
        λ _ s' e. rw (← e) (scan-Ensures (select p (get s'.db)) s')

  -- An UPDATE finds no row and changes nothing, or stores a row that meets its CHECK.
  abbrev pub IsUpdated : (R → R) → (R → Bool) → Db → Db → Type 0
  IsUpdated f check before db =
      ((select p (get before) ≡ none) × (db ≡ before))
      ⊎ ((r : R) × (select p (get before) ≡ some r)
          × (check (f r) ≡ true)
          × (db ≡ put before (update p f (get before))))

  pub store-Ensures :
      (f : R → R) (check : R → Bool) (o : Option R) (s : Session)
      → select p (get s.db) ≡ o
      → Ensures (λ _ db. IsUpdated f check s.db db) (store get put p f check o s)
  store-Ensures f check none s e = inl (e, refl)
  store-Ensures f check (some r) s e = elim (Bool-cases (check (f r))) [
    | inl c ↦ rw c (inr (r, e, c, refl))
    | inr c ↦ rw c tt
  ]

  pub exec_update-Ensures :
      (f : R → R) (check : R → Bool) (s : Session)
      → Ensures (λ _ db. IsUpdated f check s.db db) (exec_update get put p f check s)
  unfolding exec_update
  exec_update-Ensures f check s =
      Ensures-bind (λ _ db. db ≡ s.db) (λ _ db. IsUpdated f check s.db db) round_trip
        (λ _ s'. store get put p f check (select p (get s'.db)) s') s (round_trip-Ensures s)
        λ _ s' e. rw (← e) (store-Ensures f check (select p (get s'.db)) s' refl)

  -- A guarded UPDATE finds a row that passes the test, and stores its image.
  abbrev pub IsGuarded : (R → Bool) → (R → R) → (R → Bool) → Db → Db → Type 0
  IsGuarded short f check before db =
      (r : R) × (select p (get before) ≡ some r)
      × (short r ≡ false)
      × (check (f r) ≡ true)
      × (db ≡ put before (update p f (get before)))

  found-IsGuarded :
      (short : R → Bool) (f : R → R) (check : R → Bool) (r : R) (before db : Db)
      → select p (get before) ≡ some r
      → short r ≡ false
      → IsUpdated f check before db
      → IsGuarded short f check before db
  found-IsGuarded short f check r before db e h (inl (n, _)) = cc
  found-IsGuarded short f check r before db e h (inr (q, n, c, d)) = (q, n, ground arith, c, d)

  pub guarded_update-Ensures :
      (short : R → Bool) (f : R → R) (check : R → Bool) (s : Session)
      → Ensures (λ _ db. IsGuarded short f check s.db db) (guarded_update get put p short f check s)
  unfolding guarded_update
  guarded_update-Ensures short f check s =
      Ensures-bind (λ r db. (db ≡ s.db) × (select p (get s.db) ≡ some r))
        (λ _ db. IsGuarded short f check s.db db) (query_row get put p)
        (λ r. fail_if (short r) no_rows >> exec_update get put p f check) s (query_row-Ensures s)
        λ r s' (e, found). elim (Bool-cases (short r)) [
          | inl h ↦ rw h tt
          | inr h ↦ rw h (
              Ensures-mono (λ _ db. IsUpdated f check s'.db db)
                (λ _ db. IsGuarded short f check s.db db) (exec_update get put p f check s')
                (exec_update-Ensures f check s')
                λ _ db u. found-IsGuarded short f check r s.db db found h (rw e at u))
        ]

  pub read_row-Ensures :
      (s : Session)
      → Ensures (λ r db. (db ≡ s.db) × (select p (get s.db) ≡ some r)) (read_row get put p s)
  unfolding read_row
  read_row-Ensures s = scan-Ensures (select p (get s.db)) s

module _ {R : Type 0} (get : Db → List R) (put : Db → List R → Db) where
  write_row-Ensures :
      (row : R) (clash : R → R → Bool) (known : R → Db → Bool) (s : Session)
      → Ensures
          (λ q db. (q ≡ row) × (known row s.db ≡ true) × (db ≡ put s.db (get s.db ++ (row ∷ []))))
          (write_row get put row clash known s)
  write_row-Ensures row clash known s =
      elim (Bool-cases (is_some (select (clash row) (get s.db)))) [
        | inl h ↦ rw h tt
        | inr h ↦ elim (Bool-cases (known row s.db)) [
          | inl k ↦ rw (h, k) (refl, refl, refl)
          | inr k ↦ rw (h, k) tt
        ]
      ]

  -- A row that is inserted meets its CHECKs and has its references.
  abbrev pub IsInserted : (Tick → R) → (R → Bool) → (R → Db → Bool) → Db → R → Db → Type 0
  IsInserted make check known before row db =
      (t : Tick) × (row ≡ make t)
      × (check row ≡ true)
      × (known row before ≡ true)
      × (db ≡ put before (get before ++ (row ∷ [])))

  pub exec_insert-Ensures :
      (make : Tick → R) (check : R → Bool) (clash : R → R → Bool) (known : R → Db → Bool)
      (s : Session)
      → Ensures (IsInserted make check known s.db) (exec_insert get put make check clash known s)
  unfolding exec_insert
  exec_insert-Ensures make check clash known s =
      Ensures-bind (λ _ db. db ≡ s.db) (IsInserted make check known s.db) round_trip
        (λ t.
          fail_if (not (check (make t))) check_violation >> write_row get put (make t) clash known)
        s (round_trip-Ensures s)
        λ t s' e. elim (Bool-cases (check (make t))) [
          | inr h ↦ rw h tt
          | inl h ↦ rw h (
              Ensures-mono
                (λ q db.
                  (q ≡ make t)
                  × (known (make t) s'.db ≡ true)
                  × (db ≡ put s'.db (get s'.db ++ (make t ∷ []))))
                (IsInserted make check known s.db) (write_row get put (make t) clash known s')
                (write_row-Ensures (make t) clash known s')
                λ q db (p, k, d). (t, p, rw p h, rw p (rw e at k), rw p (rw e at d)))
        ]
