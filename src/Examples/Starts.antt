-- ===== src/Examples/Starts.antt =====
-- Runs of the start of the program.
use mathlib.Core.Path.{◌≡◌, refl}
use cex_go.Prelude.{String, true, false, not, ◌&&◌, ◌↔◌, ◌⊎◌, All, str_eq}
use cex_go.Prelude.Int.{pos}
use cex_go.Wiring.{Driver, PostgresConfig, allow_origin, has_prefix, new_postgres}
use cex_go.Wiring.Allowed.{IsLocal, IsHosted, allow_origin_lem}
use cex_go.Wiring.Connecting.{is_pool, leaves_open, IsLimited, new_postgres_lem}

abbrev site : String
site = "https://blink-trade-hub.lovable.app"

allow_origin_lem_example :
    (allow_origin site ≡ true) ↔ ((site ≡ "") ⊎ (IsLocal site ⊎ IsHosted site))
allow_origin_lem_example = allow_origin_lem site

-- A site over http is kept out.
plain_kept_out : allow_origin "http://blink-trade-hub.lovable.app" ≡ false
unfolding allow_origin has_prefix
plain_kept_out = refl

-- A driver that opens every DSN, in front of a server that does not answer
abbrev silent : Driver
silent = record { opens = λ _. true; pings = false }

abbrev config : PostgresConfig
config = record {
  dsn = "postgres://localhost/cex";
  max_open_conns = pos 0;
  max_idle_conns = pos 5;
  conn_max_lifetime = pos 0;
  conn_max_idle_time = pos 0;
}

new_postgres_lem_example :
    let (c, calls) = new_postgres silent config in
    (is_pool c ≡ (not (str_eq config.dsn "") && (silent.opens config.dsn && silent.pings)))
    × (leaves_open false calls ≡ is_pool c)
    × All IsLimited calls
new_postgres_lem_example = new_postgres_lem silent config
