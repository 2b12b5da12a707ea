-- ===== src/Controllers/Answers.antt =====
-- What holds of the value that a handler answers with and of the database behind it, unless it
-- refuses the request.
use cex_go.Prelude.{ℕ}
use cex_go.Database.{Db, Session, Result, Tx, ok, err}
use cex_go.Database.Ensures.{Ensures}
use cex_go.Controllers.Handlers.{Outcome, done, refused, Handler, answer, after}

abbrev pub Answers : {A : Type 0} → (A → Db → Type 0) → Outcome A × Session → Type 0
Answers Q (refused _, s) = Unit
Answers Q (done a, s) = Q a s.db

module _ {A : Type 0} (Q : A → Db → Type 0) where
  pub answered :
      (status : ℕ) (r : Result A × Session) → Ensures Q r → Answers Q (answer status (λ _. r) r.1)
  answered status (ok a, s) h = h
  answered status (err _, s) h = tt

  pub answer-Answers :
      (status : ℕ) (m : Tx A) (s : Session) → Ensures Q (m s) → Answers Q (answer status m s)
  answer-Answers status m s h = answered status (m s) h

module _ {A B : Type 0} (P : A → Db → Type 0) (Q : B → Db → Type 0) where
  pub after-Answers :
      (r : Outcome A × Session) (k : A → Handler B)
      → Answers P r
      → ((a : A) (s : Session) → P a s.db → Answers Q (k a s))
      → Answers Q (after r k)
  after-Answers (refused _, s) k p h = tt
  after-Answers (done a, s) k p h = h a s p
