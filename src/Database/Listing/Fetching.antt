-- ===== src/Database/Listing/Fetching.antt =====
-- What the loop over the rows of a query returns.
use cex_go.Prelude.{List, [], ◌∷◌, ◌++◌, ◌≡◌, true, false, refl, ap, ◌∙◌, All, length, arith}
use cex_go.Database.Rows.{Db}
use cex_go.Database.Connection.{Session, Result, Tick, Tx, ok, err, ◌>>=◌, round_trip}
use cex_go.Database.Ensures.{Ensures, Ensures-bind, round_trip-Ensures, round_trip-keeps}
use cex_go.Database.Served.{session}
use cex_go.Database.Listing.{
  next_row, fetch, next_checked, fetch_checked, query_rows, query_checked,
}
use cex_go.Database.Listing.Sorting.{IsPrefix}

module _ {R : Type 0} where
  -- The rows that arrive, and the database as it was
  abbrev pub IsFetched : List R → Db → List R → Db → Type 0
  IsFetched rows before qs db = (db ≡ before) × IsPrefix qs rows

  cons-Ensures :
      (r : R) (rs : List R) (before : Db) (m : Result (List R) × Session)
      → Ensures (IsFetched rs before) m
      → Ensures (IsFetched (r ∷ rs) before) (((λ _. m) >>= λ qs s'. (ok (r ∷ qs), s')) m.1)
  cons-Ensures r rs before (ok qs, s) (e, h) = (e, (refl, h))
  cons-Ensures r rs before (err _, s) h = tt

  next_row-Ensures :
      (r : R) (rs : List R) (before : Db) (rest : Tx (List R)) (t : Result Tick × Session)
      → t.1.db ≡ before
      → ((s : Session) → Ensures (IsFetched rs s.db) (rest s))
      → Ensures (IsFetched (r ∷ rs) before) (next_row r rest t)
  next_row-Ensures r rs before rest (err _, s) e h = (e, tt)
  next_row-Ensures r rs before rest (ok _, s) e h = rw (← e) (cons-Ensures r rs s.db (rest s) (h s))

  fetch-Ensures : (rs : List R) (s : Session) → Ensures (IsFetched rs s.db) (fetch rs s)
  unfolding fetch
  fetch-Ensures [] s = (refl, tt)
  fetch-Ensures (r ∷ rs) s =
      next_row-Ensures r rs s.db (fetch rs) (round_trip s) (round_trip-keeps s) (fetch-Ensures rs)

  pub query_rows-Ensures :
      (rows : Db → List R) (s : Session) → Ensures (IsFetched (rows s.db) s.db) (query_rows rows s)
  unfolding query_rows
  query_rows-Ensures rows s =
      Ensures-bind (λ _ db. db ≡ s.db) (IsFetched (rows s.db) s.db) round_trip
        (λ _ s'. fetch (rows s'.db) s') s (round_trip-Ensures s)
        λ _ s' e. rw (← e) (fetch-Ensures (rows s'.db) s')

  next_checked-Ensures :
      (r : R) (rs : List R) (before : Db) (rest : Tx (List R)) (t : Result Tick × Session)
      → t.1.db ≡ before
      → ((s : Session) → Ensures (λ qs db. (db ≡ s.db) × (qs ≡ rs)) (rest s))
      → Ensures (λ qs db. (db ≡ before) × (qs ≡ r ∷ rs)) (next_checked r rest t)
  next_checked-Ensures r rs before rest (err _, s) e h = tt
  next_checked-Ensures r rs before rest (ok _, s) e h =
      Ensures-bind (λ qs db. (db ≡ s.db) × (qs ≡ rs)) (λ qs db. (db ≡ before) × (qs ≡ r ∷ rs)) rest
        (λ qs s'. (ok (r ∷ qs), s')) s (h s) λ qs s' (d, k). (d ∙ e, ap (λ x. r ∷ x) k)

  fetch_checked-Ensures :
      (rs : List R) (s : Session) → Ensures (λ qs db. (db ≡ s.db) × (qs ≡ rs)) (fetch_checked rs s)
  unfolding fetch_checked
  fetch_checked-Ensures [] s = (refl, refl)
  fetch_checked-Ensures (r ∷ rs) s =
      next_checked-Ensures r rs s.db (fetch_checked rs) (round_trip s) (round_trip-keeps s)
        (fetch_checked-Ensures rs)

  -- With a look at `rows.Err()` all rows are there.
  pub query_checked-Ensures :
      (rows : Db → List R) (s : Session)
      → Ensures (λ qs db. (db ≡ s.db) × (qs ≡ rows s.db)) (query_checked rows s)
  unfolding query_checked
  query_checked-Ensures rows s =
      Ensures-bind (λ _ db. db ≡ s.db) (λ qs db. (db ≡ s.db) × (qs ≡ rows s.db)) round_trip
        (λ _ s'. fetch_checked (rows s'.db) s') s (round_trip-Ensures s)
        λ _ s' e. rw (← e) (fetch_checked-Ensures (rows s'.db) s')

  -- If the server answers for every row, all rows arrive.
  fetch-served :
      (db : Db) (ts rest : List Tick) (rs : List R)
      → All (λ t. t.fails ≡ false) ts
      → length ts ≡ length rs
      → fetch rs (session db (ts ++ rest)) ≡ (ok rs, session db rest)
  unfolding fetch round_trip
  fetch-served db [] rest [] h e = refl
  fetch-served db [] rest (r ∷ rs) h e = absurd (omega (arith, e))
  fetch-served db (t ∷ ts) rest [] h e = absurd (omega (arith, e))
  fetch-served db (t ∷ ts) rest (r ∷ rs) (h, hs) e =
      rw h (
        ap (λ m. next_row r (λ _. m) (ok t, m.1))
          (fetch-served db ts rest rs hs (omega (arith, e))))

  pub query_rows-served :
      (rows : Db → List R) (db : Db) (t : Tick) (ts rest : List Tick)
      → All (λ t. t.fails ≡ false) (t ∷ ts)
      → length ts ≡ length (rows db)
      → query_rows rows (session db (t ∷ ts ++ rest)) ≡ (ok (rows db), session db rest)
  unfolding query_rows round_trip
  query_rows-served rows db t ts rest (h, hs) e = rw h (fetch-served db ts rest (rows db) hs e)

  -- A connection that fails after some rows
  fetch-broken :
      (db : Db) (ts rest : List Tick) (t : Tick) (rs qs : List R)
      → All (λ t. t.fails ≡ false) ts
      → length ts ≡ length rs
      → t.fails ≡ true
      → (q : R) → fetch (rs ++ q ∷ qs) (session db (ts ++ t ∷ rest)) ≡ (ok rs, session db rest)
  unfolding fetch round_trip
  fetch-broken db [] rest t [] qs h e f q = rw f refl
  fetch-broken db [] rest t (r ∷ rs) qs h e f q = absurd (omega (arith, e))
  fetch-broken db (u ∷ ts) rest t [] qs h e f q = absurd (omega (arith, e))
  fetch-broken db (u ∷ ts) rest t (r ∷ rs) qs (h, hs) e f q = rw h (
      ap (λ m. next_row r (λ _. m) (ok u, m.1))
        (fetch-broken db ts rest t rs qs hs (omega (arith, e)) f q))

  -- Such a query returns those rows and no error.
  pub query_rows-broken :
      (rows : Db → List R) (db : Db) (t u : Tick) (ts rest : List Tick) (rs qs : List R) (q : R)
      → rows db ≡ rs ++ q ∷ qs
      → All (λ t. t.fails ≡ false) (t ∷ ts)
      → length ts ≡ length rs
      → u.fails ≡ true
      → query_rows rows (session db (t ∷ ts ++ u ∷ rest)) ≡ (ok rs, session db rest)
  unfolding query_rows round_trip
  query_rows-broken rows db t u ts rest rs qs q k (h, hs) e f =
      rw (h, k) (fetch-broken db ts rest u rs qs hs e f q)
