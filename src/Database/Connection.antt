-- ===== src/Database/Connection.antt =====
-- A session: the database as the open transaction sees it, and what the server answers to each
-- statement that is still to come.
use cex_go.Prelude.{ℕ, Bool, List, [], ◌∷◌, if◌then◌else◌}
use cex_go.Prelude.Int.{ℤ}
use cex_go.Database.Rows.{Db}

-- The server's part in one statement: whether it fails for a reason of its own (a lost connection,
-- a cancelled context), the id that `gen_random_uuid()` yields, and the time of `NOW()`.
pub record Tick : Type 0 where
  pub fails : Bool
  pub uuid : ℕ
  pub now : ℤ

-- When no tick is left the server is gone and every statement fails.
pub record Session : Type 0 where
  pub db : Db
  pub ticks : List Tick

-- `no_rows` is `sql.ErrNoRows`, which the code also returns for a balance that is too small.
pub data Error : Type 0 where
  no_rows check_violation foreign_key_violation unique_violation connection : Error

pub data Result (A : Type 0) : Type 0 where
  ok : A → Result A
  err : Error → Result A

-- The state comes back after an error too: what was written stays until a rollback.
abbrev pub Tx : Type 0 → Type 0
Tx A = Session → Result A × Session

module _ {A : Type 0} where
  abbrev pub pure : A → Tx A
  pure a s = (ok a, s)

  abbrev pub fail : Error → Tx A
  fail e s = (err e, s)

infixl 5 ◌>>=◌ ◌>>◌
abbrev pub ◌>>=◌ : {A B : Type 0} → Tx A → (A → Tx B) → Tx B
◌>>=◌ m f s = let (r, s') = m s in elim r [ ok a ↦ f a s' | err e ↦ (err e, s') ]

abbrev pub ◌>>◌ : {A B : Type 0} → Tx A → Tx B → Tx B
m >> k = m >>= λ _. k

abbrev pub fail_if : Bool → Error → Tx (Unit {0})
fail_if c e s = (if c then err e else ok tt, s)

-- `if c { return nil }` in front of the rest.
abbrev pub unless : Bool → Tx (Unit {0}) → Tx (Unit {0})
unless c m = if c then pure tt else m

-- One round trip to the server.
unfoldable pub round_trip : Tx Tick
round_trip s = elim s.ticks [
  | [] ↦ (err connection, s)
  | t ∷ ts ↦ (if t.fails then err connection else ok t, record s { ticks = ts })
]
