-- ===== src/Wiring/Connecting.antt =====
-- The connection to PostgreSQL, and when the program serves.
use cex_go.Prelude.{
  Bool, true, false, not, ◌&&◌, ◌≡◌, ◌≢◌, List, [], ◌∷◌, All, str_eq, if◌then◌else◌, arith, refl,
  Bool-cases, inl, inr,
}
use cex_go.Prelude.Int.{ℤ, pos}
use cex_go.Database.{Session}
use cex_go.Redis.{Server}
use cex_go.Redis.Loading.{load_order_book_to_redis}
use cex_go.Wiring.Postgres.{
  PostgresConfig, Driver, Connected, pool, failed, Call, open_pool, open_failed, set_max_open_conns,
  set_max_idle_conns, set_conn_max_lifetime, set_conn_max_idle_time, ping, close_pool, or_default,
  with_defaults, connect, new_postgres,
}
use cex_go.Wiring.Start.{
  Env, Start, serving, no_postgres, no_redis, new_redis_client, postgres_config, main, connected,
}

-- Whether the calls leave a pool open
abbrev pub leaves_open : Bool → List Call → Bool
leaves_open b [] = b
leaves_open b (open_pool _ ∷ cs) = leaves_open true cs
leaves_open b (close_pool ∷ cs) = leaves_open false cs
leaves_open b (open_failed _ ∷ cs) = leaves_open b cs
leaves_open b (set_max_open_conns _ ∷ cs) = leaves_open b cs
leaves_open b (set_max_idle_conns _ ∷ cs) = leaves_open b cs
leaves_open b (set_conn_max_lifetime _ ∷ cs) = leaves_open b cs
leaves_open b (set_conn_max_idle_time _ ∷ cs) = leaves_open b cs
leaves_open b (ping ∷ cs) = leaves_open b cs

-- 0, which database/sql takes for no limit
abbrev pub IsLimited : Call → Type 0
IsLimited (set_max_open_conns n) = n ≢ pos 0
IsLimited (set_max_idle_conns n) = n ≢ pos 0
IsLimited (set_conn_max_lifetime n) = n ≢ pos 0
IsLimited (set_conn_max_idle_time n) = n ≢ pos 0
IsLimited (open_pool _) = Unit
IsLimited (open_failed _) = Unit
IsLimited ping = Unit
IsLimited close_pool = Unit

abbrev pub is_pool : Connected → Bool
is_pool pool = true
is_pool (failed _) = false

or_default-ne : (d n : ℤ) → d ≢ pos 0 → or_default d n ≢ pos 0
unfolding or_default
or_default-ne d n h = ground (arith, h)

abbrev HasLimits : PostgresConfig → Type 0
HasLimits cfg =
    (cfg.max_open_conns ≢ pos 0)
    × (cfg.max_idle_conns ≢ pos 0)
    × (cfg.conn_max_lifetime ≢ pos 0)
    × (cfg.conn_max_idle_time ≢ pos 0)

with_defaults-HasLimits : (cfg : PostgresConfig) → HasLimits (with_defaults cfg)
unfolding with_defaults
with_defaults-HasLimits cfg = (
  or_default-ne (pos 25) cfg.max_open_conns (λ e. cc e),
  or_default-ne (pos 10) cfg.max_idle_conns (λ e. cc e),
  or_default-ne (pos 1_800_000) cfg.conn_max_lifetime (λ e. cc e),
  or_default-ne (pos 600_000) cfg.conn_max_idle_time (λ e. cc e),
)

abbrev IsSettled : Bool → Connected × List Call → Type 0
IsSettled b (c, calls) =
    (is_pool c ≡ b) × (leaves_open false calls ≡ is_pool c) × All IsLimited calls

pinged-IsSettled :
    (opens pings : Bool) (cfg : PostgresConfig)
    → HasLimits cfg
    → IsSettled (opens && pings) (connect (record { opens = λ _. opens; pings = pings }) cfg)
unfolding connect
pinged-IsSettled false pings cfg h = (refl, refl, (tt, tt))
pinged-IsSettled true true cfg (a, b, c, d) = (refl, refl, (tt, (a, (b, (c, (d, (tt, tt)))))))
pinged-IsSettled true false cfg (a, b, c, d) =
    (refl, refl, (tt, (a, (b, (c, (d, (tt, (tt, tt))))))))

connect-IsSettled :
    (driver : Driver) (cfg : PostgresConfig)
    → HasLimits cfg
    → IsSettled (driver.opens cfg.dsn && driver.pings) (connect driver cfg)
unfolding connect
connect-IsSettled driver cfg h = pinged-IsSettled (driver.opens cfg.dsn) driver.pings cfg h

-- `NewPostgres` returns a pool exactly where the DSN is not empty, `sql.Open` takes it and the server
-- answers the ping. It leaves a pool open exactly where it returns one, and no setting that it makes is 0.
pub new_postgres_lem :
    (driver : Driver) (cfg : PostgresConfig)
    → let (c, calls) = new_postgres driver cfg in
      (is_pool c ≡ (not (str_eq cfg.dsn "") && (driver.opens cfg.dsn && driver.pings)))
      × (leaves_open false calls ≡ is_pool c)
      × All IsLimited calls
unfolding new_postgres
new_postgres_lem driver cfg = elim (Bool-cases (str_eq cfg.dsn "")) [
  | inl e ↦ rw e (refl, refl, tt)
  | inr e ↦ rw e (connect-IsSettled driver (with_defaults cfg) (with_defaults-HasLimits cfg))
]

abbrev pub is_serving : Start → Bool
is_serving (serving _ _) = true
is_serving (no_postgres _) = false
is_serving no_redis = false

module _ (server : Server) where
  open server use {Store}

  -- The book and the database are what `LoadOrderBookToRedis` leaves, or else as they were.
  abbrev pub IsStarted : Bool → Store → Session → Start × Store × Session → Type 0
  IsStarted b st s (x, st', s') =
      let (_, st₁, s₁) = load_order_book_to_redis server st s in
      (is_serving x ≡ b)
      × (st' ≡ (if is_serving x then st₁ else st))
      × (s' ≡ (if is_serving x then s₁ else s))

  connected-IsStarted :
      (env : Env) (pings : Bool) (c : Connected) (st : Store) (s : Session)
      → IsStarted (is_pool c && pings) st s (connected server env pings c st s)
  unfolding new_redis_client
  connected-IsStarted env pings (failed _) st s = (refl, refl, refl)
  connected-IsStarted env false pool st s = (refl, refl, refl)
  connected-IsStarted env true pool st s = (refl, refl, refl)

  -- `main` serves exactly where the DSN is not empty, `sql.Open` takes it and both PostgreSQL and Redis
  -- answer their pings. Where it serves, Redis and the connection are as `LoadOrderBookToRedis` leaves
  -- them, with or without an error, and otherwise as they were.
  pub main-IsStarted :
      (driver : Driver) (pings : Bool) (env : Env) (st : Store) (s : Session)
      → let uri = env.postgres_uri in
        IsStarted
          ((not (str_eq uri "") && (driver.opens uri && driver.pings)) && pings)
          st
          s
          (main server driver pings env st s)
  unfolding main
  main-IsStarted driver pings env st s =
      rw (← (new_postgres_lem driver (postgres_config env)).0)
        (connected-IsStarted env pings (new_postgres driver (postgres_config env)).0 st s)
