-- ===== src/Rooms/Broadcast.antt =====
-- `broadcast` and `listenRedis` of internal/ws/wsServer.go.
use mathlib.Core.Path.{◌≡◌, refl, ap}
use cex_go.Prelude.{ℕ, Bool, List, [], ◌∷◌, ◌++◌, Mem, inl, inr, if◌then◌else◌, map, All}
use cex_go.Redis.{Payload}
use cex_go.Rooms.{Room}

-- What a listener does to the connections: `websocket.Message.Send` of a message that succeeds, or a
-- `Close` after one that fails
pub data Action : Type 0 where
  sent : ℕ → Payload → Action
  closed : ℕ → Action

-- `sends` is whether a message to a connection can be sent. The code visits the clients in the random
-- order of a Go map.
abbrev pub send_to : (ℕ → Bool) → Payload → ℕ → Action
send_to sends payload conn = if sends conn then sent conn payload else closed conn

unfoldable pub broadcast : (ℕ → Bool) → List ℕ → Payload → List Action
broadcast sends clients payload = map (send_to sends payload) clients

-- What the `select` of a listener finds: a message on the market's channels, while the room is as it is
-- then, or that its context is done
pub data Event : Type 0 where
  message : Room → Payload → Event
  context_done : Event

unfoldable pub listen_redis : (ℕ → Bool) → List Event → List Action
unfolding broadcast
listen_redis sends [] = []
listen_redis sends (context_done ∷ es) = []
listen_redis sends (message room payload ∷ es) =
    broadcast sends room.clients payload ++ listen_redis sends es

abbrev IsMessage : Event → Type 0
IsMessage (message room payload) = Unit
IsMessage context_done = ⊥

Mem-map :
    {A B : Type 0} (f : A → B) (a : A) (items : List A) → Mem a items → Mem (f a) (map f items)
Mem-map f a [] m = m
Mem-map f a (x ∷ xs) (inl e) = inl (ap f e)
Mem-map f a (x ∷ xs) (inr m) = inr (Mem-map f a xs m)

Mem-append_left : {A : Type 0} (a : A) (items bs : List A) → Mem a items → Mem a (items ++ bs)
Mem-append_left a [] bs m = absurd m
Mem-append_left a (x ∷ xs) bs (inl e) = inl e
Mem-append_left a (x ∷ xs) bs (inr m) = inr (Mem-append_left a xs bs m)

Mem-append_right : {A : Type 0} (a : A) (items bs : List A) → Mem a bs → Mem a (items ++ bs)
Mem-append_right a [] bs m = m
Mem-append_right a (x ∷ xs) bs m = inr (Mem-append_right a xs bs m)

-- A message that comes before the context of the listener is done goes to every client that the room
-- has then: it is sent, or the connection is closed if that fails.
pub listen_redis-delivers :
    (sends : ℕ → Bool) (before after : List Event) (room : Room) (payload : Payload) (conn : ℕ)
    → All IsMessage before
    → Mem conn room.clients
    → Mem (send_to sends payload conn) (listen_redis sends (before ++ message room payload ∷ after))
unfolding listen_redis broadcast
listen_redis-delivers sends [] after room payload conn h m =
    Mem-append_left (send_to sends payload conn) (map (send_to sends payload) room.clients)
      (listen_redis sends after) (Mem-map (send_to sends payload) conn room.clients m)
listen_redis-delivers sends (message r d ∷ es) after room payload conn (_, h) m =
    Mem-append_right (send_to sends payload conn) (map (send_to sends d) r.clients) _
      (listen_redis-delivers sends es after room payload conn h m)
listen_redis-delivers sends (context_done ∷ es) after room payload conn (h, _) m = absurd h

-- Once the context of a listener is done it does nothing more, whatever is still to come.
pub listen_redis-stops :
    (sends : ℕ → Bool) (before after : List Event)
    → listen_redis sends (before ++ context_done ∷ after) ≡ listen_redis sends before
unfolding listen_redis broadcast
listen_redis-stops sends [] after = refl
listen_redis-stops sends (message r d ∷ es) after =
    ap (λ actions. map (send_to sends d) r.clients ++ actions) (listen_redis-stops sends es after)
listen_redis-stops sends (context_done ∷ es) after = refl
