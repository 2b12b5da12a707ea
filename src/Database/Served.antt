-- ===== src/Database/Served.antt =====
-- What a statement does if the server answers it: total correctness, for a session that still has
-- answers that are no failure.
use cex_go.Prelude.{ap, ◌∙◌, ◌≡◌, refl, false, true, Bool, some, List, ◌∷◌}
use cex_go.Database.Rows.{Db}
use cex_go.Database.Connection.{◌>>=◌, ◌>>◌, fail_if, no_rows, Session, Tick, ok, round_trip, Tx}
use cex_go.Database.Table.{select, update}
use cex_go.Database.Statement.{guarded_update, query_row, exec_update}

abbrev pub session : Db → List Tick → Session
session db ticks = record { db = db; ticks = ticks }

module _ {R : Type 0} (get : Db → List R) (put : Db → List R → Db) (db : Db) (t : Tick)
    (ts : List Tick) where
  pub query_row-served :
      (p : R → Bool) (r : R)
      → t.fails ≡ false
      → select p (get db) ≡ some r
      → query_row get put p (session db (t ∷ ts)) ≡ (ok r, session db ts)
  unfolding query_row round_trip
  query_row-served p r h e = rw (h, e) refl

  pub exec_update-served :
      (p : R → Bool) (f : R → R) (check : R → Bool) (r : R)
      → t.fails ≡ false
      → select p (get db) ≡ some r
      → check (f r) ≡ true
      → exec_update get put p f check (session db (t ∷ ts))
        ≡ (ok tt, session (put db (update p f (get db))) ts)
  unfolding exec_update round_trip
  exec_update-served p f check r h e c = rw (h, e, c) refl

pub bind-served :
    {A B : Type 0} (m : Tx A) (f : A → Tx B) (s : Session) (a : A) (s' : Session)
    → m s ≡ (ok a, s')
    → (m >>= f) s ≡ f a s'
bind-served m f s a s' e = ap (λ r. ((λ _. r) >>= f) r.1) e

module _ {R : Type 0} (get : Db → List R) (put : Db → List R → Db) where
  pub guarded_update-served :
      (db : Db) (t u : Tick) (ts : List Tick) (p short : R → Bool) (f : R → R) (check : R → Bool)
      (r : R)
      → t.fails ≡ false
      → u.fails ≡ false
      → select p (get db) ≡ some r
      → short r ≡ false
      → check (f r) ≡ true
      → guarded_update get put p short f check (session db (t ∷ u ∷ ts))
        ≡ (ok tt, session (put db (update p f (get db))) ts)
  unfolding guarded_update
  guarded_update-served db t u ts p short f check r h k e n c =
      bind-served (query_row get put p)
        (λ q. fail_if (short q) no_rows >> exec_update get put p f check) (session db (t ∷ u ∷ ts))
        r (session db (u ∷ ts)) (query_row-served get put db t (u ∷ ts) p r h e)
      ∙ rw n (exec_update-served get put db u ts p f check r k e c)
