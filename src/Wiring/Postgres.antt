-- ===== src/Wiring/Postgres.antt =====
-- `NewPostgres` of internal/db/postgres.go over database/sql, whose answers are a parameter: the calls
-- that it makes, in order, and what it returns. A duration is in milliseconds.
use cex_go.Prelude.{String, Bool, List, [], ◌∷◌, str_eq, if◌then◌else◌}
use cex_go.Prelude.Int.{ℤ, pos, eqb_ℤ}

pub record PostgresConfig : Type 0 where
  pub dsn : String
  pub max_open_conns : ℤ
  pub max_idle_conns : ℤ
  pub conn_max_lifetime : ℤ
  pub conn_max_idle_time : ℤ

-- Whether `sql.Open` takes the text, and whether the server answers the ping
pub record Driver : Type 0 where
  pub opens : String → Bool
  pub pings : Bool

-- `open_pool` is a call of `sql.Open` that gave a pool, `open_failed` one that gave an error.
pub data Call : Type 0 where
  open_pool open_failed : String → Call
  set_max_open_conns set_max_idle_conns set_conn_max_lifetime set_conn_max_idle_time : ℤ → Call
  ping close_pool : Call

pub data PostgresError : Type 0 where
  empty_dsn cannot_open cannot_ping : PostgresError

pub data Connected : Type 0 where
  pool : Connected
  failed : PostgresError → Connected

-- A setting of 0 stands for the default.
unfoldable pub or_default : ℤ → ℤ → ℤ
or_default default n = if eqb_ℤ n (pos 0) then default else n

unfoldable pub with_defaults : PostgresConfig → PostgresConfig
unfolding or_default
with_defaults cfg = record cfg {
  max_open_conns = or_default (pos 25) cfg.max_open_conns;
  max_idle_conns = or_default (pos 10) cfg.max_idle_conns;
  conn_max_lifetime = or_default (pos 1_800_000) cfg.conn_max_lifetime;
  conn_max_idle_time = or_default (pos 600_000) cfg.conn_max_idle_time;
}

-- The pool is opened and configured, and closed again if the server does not answer.
unfoldable pub connect : Driver → PostgresConfig → Connected × List Call
connect driver cfg =
    if driver.opens cfg.dsn
    then (
      if driver.pings then pool else failed cannot_ping,
      open_pool cfg.dsn
          ∷ set_max_open_conns cfg.max_open_conns
          ∷ set_max_idle_conns cfg.max_idle_conns
          ∷ set_conn_max_lifetime cfg.conn_max_lifetime
          ∷ set_conn_max_idle_time cfg.conn_max_idle_time
          ∷ ping
          ∷ (if driver.pings then [] else close_pool ∷ []),
    )
    else (failed cannot_open, open_failed cfg.dsn ∷ [])

unfoldable pub new_postgres : Driver → PostgresConfig → Connected × List Call
unfolding connect with_defaults
new_postgres driver cfg =
    if str_eq cfg.dsn "" then (failed empty_dsn, []) else connect driver (with_defaults cfg)
