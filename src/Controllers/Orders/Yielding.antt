-- ===== src/Controllers/Orders/Yielding.antt =====
-- What the result of a handler and the database behind it satisfy, if the handler goes on.
use cex_go.Prelude.{ℕ, ◌≡◌}
use cex_go.Database.{Db, Session, Result, Tx, Tick, ok, err, round_trip}
use cex_go.Database.Ensures.{Ensures, round_trip-keeps}
use cex_go.Controllers.Handlers.{
  Outcome, refused, done, Handler, answer, after, committed, close, opened, transaction,
}

abbrev pub Yields : {A : Type 0} → (A → Db → Type 0) → Outcome A × Session → Type 0
Yields Q (refused _, s) = Unit
Yields Q (done a, s) = Q a s.db

module _ {A : Type 0} (Q : A → Db → Type 0) where
  pub answer-Yields :
      (status : ℕ) (m : Tx A) (s : Session) → Ensures Q (m s) → Yields Q (answer status m s)
  answer-Yields status m s h = outcome (m s) h
    where
      outcome : (r : Result A × Session) → Ensures Q r → Yields Q (answer status (λ _. r) s)
      outcome (ok a, s') h = h
      outcome (err e, s') h = tt

  committed-Yields :
      (before : Session) (a : A) (d : Db) (r : Result Tick × Session)
      → r.1.db ≡ d
      → Q a d
      → Yields Q (committed before a r)
  committed-Yields before a d (ok _, s) e q = rw e q
  committed-Yields before a d (err _, s) e q = tt

  close-Yields :
      (before : Session) (r : Outcome A × Session) → Yields Q r → Yields Q (close before r)
  close-Yields before (refused _, s) q = tt
  close-Yields before (done a, s) q =
      committed-Yields before a s.db (round_trip s) (round_trip-keeps s) q

  opened-Yields :
      (before : Session) (body : Handler A) (r : Result Tick × Session)
      → r.1.db ≡ before.db
      → ((s : Session) → s.db ≡ before.db → Yields Q (body s))
      → Yields Q (opened before body r)
  opened-Yields before body (err _, s) e h = tt
  opened-Yields before body (ok _, s) e h = close-Yields before (body s) (h s e)

  pub transaction-Yields :
      (body : Handler A) (before : Session)
      → ((s : Session) → s.db ≡ before.db → Yields Q (body s))
      → Yields Q (transaction body before)
  unfolding transaction
  transaction-Yields body before h =
      opened-Yields before body (round_trip before) (round_trip-keeps before) h

pub after-Yields :
    {A B : Type 0} (P : A → Db → Type 0) (Q : B → Db → Type 0) (r : Outcome A × Session)
    (k : A → Handler B)
    → Yields P r
    → ((a : A) (s : Session) → P a s.db → Yields Q (k a s))
    → Yields Q (after r k)
after-Yields P Q (refused _, s) k p h = tt
after-Yields P Q (done a, s) k p h = h a s p
