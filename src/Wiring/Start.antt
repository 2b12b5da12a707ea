-- ===== src/Wiring/Start.antt =====
-- `main` of cmd/main.go up to the call of `r.Run`, and `NewRedisClient` of internal/db/redis.go. The
-- environment is what `os.Getenv` finds after the .env file was read.
use cex_go.Prelude.{ℕ, String, Bool, true, false, Option, none, some, str_eq, if◌then◌else◌}
use cex_go.Prelude.Int.{pos}
use cex_go.Database.{Session}
use cex_go.Redis.{Server}
use cex_go.Redis.Loading.{load_order_book_to_redis}
use cex_go.Wiring.Postgres.{
  PostgresConfig, Driver, Connected, pool, failed, PostgresError, new_postgres,
}

pub record Env : Type 0 where
  pub postgres_uri : String
  pub redis_addr : String
  pub redis_password : String
  pub port : String

-- `redis.Options`
pub record Options : Type 0 where
  pub addr : String
  pub password : String
  pub db : ℕ

pub record RedisConfig : Type 0 where
  pub addr : String
  pub password : String
  pub db : ℕ
  pub rdb_client : Option Options

-- The client is stored in any case, and the error is that of the ping, whose success is `pings`.
unfoldable pub new_redis_client : Bool → RedisConfig → RedisConfig × Bool
new_redis_client pings c = (
  record c { rdb_client = some (record { addr = c.addr; password = c.password; db = c.db }) },
  pings,
)

unfoldable pub port_of : String → String
port_of port = if str_eq port "" then "8080" else port

-- The program ends with a message, or serves on a port with a client of Redis.
pub data Start : Type 0 where
  no_postgres : PostgresError → Start
  no_redis : Start
  serving : String → RedisConfig → Start

-- `db.PostgresConfig{DSN: …}` leaves the other settings zero.
abbrev pub postgres_config : Env → PostgresConfig
postgres_config env = record {
  dsn = env.postgres_uri;
  max_open_conns = pos 0;
  max_idle_conns = pos 0;
  conn_max_lifetime = pos 0;
  conn_max_idle_time = pos 0;
}

abbrev pub redis_config : Env → RedisConfig
redis_config env = record {
  addr = env.redis_addr;
  password = env.redis_password;
  db = 0;
  rdb_client = none;
}

module _ (server : Server) where
  open server use {Store}

  -- An error of the load of the order book is only logged.
  abbrev pub loaded_and_served :
      Env → RedisConfig × Bool → Store → Session → Start × Store × Session
  loaded_and_served env (config, false) st s = (no_redis, st, s)
  loaded_and_served env (config, true) st s =
      let (_, st', s') = load_order_book_to_redis server st s in
      (serving (port_of env.port) config, st', s')

  abbrev pub connected : Env → Bool → Connected → Store → Session → Start × Store × Session
  connected env pings (failed e) st s = (no_postgres e, st, s)
  connected env pings pool st s =
      loaded_and_served env (new_redis_client pings (redis_config env)) st s

  unfoldable pub main : Driver → Bool → Env → Store → Session → Start × Store × Session
  unfolding new_postgres new_redis_client port_of
  main driver pings env st s =
      connected env pings (new_postgres driver (postgres_config env)).0 st s
