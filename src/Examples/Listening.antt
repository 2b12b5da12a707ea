-- ===== src/Examples/Listening.antt =====
-- A listener with two messages for a room of two clients, of whom one cannot be reached.
use mathlib.Core.Path.{refl}
use mathlib.Core.Logic.{inl, inr}
use cex_go.Prelude.{ℕ, Bool, ◌==◌, [], ◌∷◌, Mem}
use cex_go.Redis.{order_remove}
use cex_go.Rooms.{Room}
use cex_go.Rooms.Broadcast.{message, context_done, send_to, listen_redis, listen_redis-delivers}

abbrev watched : Room
watched = record { market_id = 7; clients = 1 ∷ 2 ∷ []; listener = 0 }

abbrev first_only : ℕ → Bool
first_only conn = conn == 1

listen_redis-delivers_example : Mem (send_to first_only (order_remove 21 7) 2) (
    listen_redis first_only (
      message watched (order_remove 20 7)
      ∷ message watched (order_remove 21 7)
      ∷ context_done
      ∷ []))
listen_redis-delivers_example =
    listen_redis-delivers first_only (message watched (order_remove 20 7) ∷ []) (context_done ∷ [])
      watched (order_remove 21 7) 2 (tt, tt) (inr (inl refl))
