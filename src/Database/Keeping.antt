-- ===== src/Database/Keeping.antt =====
-- The database behind a read.
use cex_go.Prelude.{◌≡◌, refl, Bool, Option, none, some, List, ◌∙◌}
use cex_go.Database.Rows.{Db}
use cex_go.Database.Connection.{Session, Result, Tx, ok, err, ◌>>=◌, round_trip}
use cex_go.Database.Table.{select}
use cex_go.Database.Statement.{scan, query_row}
use cex_go.Database.Ensures.{round_trip-keeps}

module _ {A B : Type 0} (db : Db) where
  after_keeps :
      (m : Result A × Session) (f : A → Tx B)
      → m.1.db ≡ db
      → ((a : A) (s : Session) → s.db ≡ db → (f a s).1.db ≡ db)
      → (((λ _. m) >>= f) m.1).1.db ≡ db
  after_keeps (ok a, s) f h k = k a s h
  after_keeps (err _, s) f h k = h

  pub bind-keeps :
      (m : Tx A) (f : A → Tx B) (s : Session)
      → (m s).1.db ≡ db
      → ((a : A) (s' : Session) → s'.db ≡ db → (f a s').1.db ≡ db)
      → ((m >>= f) s).1.db ≡ db
  bind-keeps m f s = after_keeps (m s) f

module _ {R : Type 0} (get : Db → List R) (put : Db → List R → Db) where
  scan-keeps : (o : Option R) (s : Session) → (scan get put o s).1.db ≡ s.db
  scan-keeps none s = refl
  scan-keeps (some r) s = refl

  pub query_row-keeps : (p : R → Bool) (s : Session) → (query_row get put p s).1.db ≡ s.db
  unfolding query_row
  query_row-keeps p s =
      bind-keeps s.db round_trip (λ _ s'. scan get put (select p (get s'.db)) s') s
        (round_trip-keeps s) λ _ s' h. scan-keeps (select p (get s'.db)) s' ∙ h
