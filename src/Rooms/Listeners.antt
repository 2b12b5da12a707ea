-- ===== src/Rooms/Listeners.antt =====
-- Which rooms and listeners the server keeps.
use mathlib.Core.Option.{some-injective}
use cex_go.Prelude.{
  All-mono, ℕ, suc, ◌<◌, ◌==◌, ◌≡◌, refl, ap, sym, Bool-cases, true, false, inl, inr, Option, none,
  some, List, [], ◌∷◌, map, length, All, arith,
}
use cex_go.Database.Table.{select, update, is_some, All-update, All-select, All-update_one}
use cex_go.Rooms.{
  Room, WsServer, of_room, remove, delete, add_client, drop_client, create_room, join_room,
  leave_from, leave_room, Step, joined, left, Reachable, started, stepped,
}

abbrev pub HasClients : Room → Type 0
HasClients r = (length r.clients == 0) ≡ false

abbrev pub Differs : Room → Room → Type 0
Differs r q = (r.listener == q.listener) ≡ false

abbrev pub Distinct : List Room → Type 0
Distinct [] = Unit
Distinct (r ∷ rs) = All (Differs r) rs × Distinct rs

-- The listeners that run are those of the rooms, one for each, and the next one is new.
pub record IsListening (ws : WsServer) : Type 0 where
  pub matched : ws.listeners ≡ map (λ r. r.listener) ws.rooms
  pub distinct : Distinct ws.rooms
  pub older : All (λ r. r.listener < ws.next) ws.rooms

module _ (market : ℕ) (f : Room → Room) (keeps : (r : Room) → (f r).listener ≡ r.listener) where
  map-update :
      (rs : List Room)
      → map (λ r. r.listener) (update (of_room market) f rs) ≡ map (λ r. r.listener) rs
  unfolding update
  map-update [] = refl
  map-update (r ∷ rs) = elim (Bool-cases (of_room market r)) [
    | inl h ↦ rw (h, update, keeps r) refl
    | inr h ↦ rw (h, update, map-update rs) refl
  ]

  update-Distinct : (rs : List Room) → Distinct rs → Distinct (update (of_room market) f rs)
  unfolding update
  update-Distinct [] d = tt
  update-Distinct (r ∷ rs) d = elim (Bool-cases (of_room market r)) [
    | inl h ↦ rw (h, update) (rw (keeps r) d.0, d.1)
    | inr h ↦
        rw (h, update)
          (
            All-update (Differs r) (of_room market) f rs (λ q k. rw (keeps q) k) d.0,
            update-Distinct rs d.1,
          )
  ]

  update-IsListening :
      (ws : WsServer)
      → IsListening ws
      → IsListening (record ws { rooms = update (of_room market) f ws.rooms })
  update-IsListening ws v = record {
    matched = rw (map-update ws.rooms) v.matched;
    distinct = update-Distinct ws.rooms v.distinct;
    older =
        All-update (λ r. r.listener < ws.next) (of_room market) f ws.rooms (λ r k. rw (keeps r) k)
          v.older;
  }

All-delete : (P : Room → Type 0) (market : ℕ) (rs : List Room) → All P rs → All P (delete market rs)
unfolding delete
All-delete P market [] h = tt
All-delete P market (r ∷ rs) h = elim (Bool-cases (of_room market r)) [
  | inl e ↦ rw (e, delete) h.1
  | inr e ↦ rw (e, delete) (h.0, All-delete P market rs h.1)
]

delete-Distinct : (market : ℕ) (rs : List Room) → Distinct rs → Distinct (delete market rs)
unfolding delete
delete-Distinct market [] h = tt
delete-Distinct market (r ∷ rs) h = elim (Bool-cases (of_room market r)) [
  | inl e ↦ rw (e, delete) h.1
  | inr e ↦ rw (e, delete) (All-delete (Differs r) market rs h.0, delete-Distinct market rs h.1)
]

eq_self : (n : ℕ) → (n == n) ≡ true
eq_self n = ground arith

-- The listener of the room that goes is the one that is stopped.
map-delete :
    (market : ℕ) (rs : List Room) (r : Room)
    → select (of_room market) rs ≡ some r
    → Distinct rs
    → map (λ q. q.listener) (delete market rs) ≡ remove r.listener (map (λ q. q.listener) rs)
unfolding select delete remove
map-delete market [] r e d = absurd (cc e)
map-delete market (x ∷ rs) r e d = elim (Bool-cases (of_room market x)) [
  | inl h ↦
      let same : x ≡ r = some-injective x r (rw (h, select) at e) in
      rw (← same) (rw (h, delete) rw (eq_self x.listener) refl)
  | inr h ↦
      let found : select (of_room market) rs ≡ some r = rw (h, select) at e in
      let k : Differs x r = All-select (Differs x) (of_room market) rs r d.0 found in
      rw (h, delete, k, remove) (ap (λ l. x.listener ∷ l) (map-delete market rs r found d.1))
]

-- Every room has a client, and exactly the rooms' listeners run.
abbrev pub IsServing : WsServer → Type 0
IsServing ws = All HasClients ws.rooms × IsListening ws

create_room-IsListening :
    (market : ℕ) (ws : WsServer) → IsListening ws → IsListening (create_room market ws)
create_room-IsListening market ws v =
    let new : Room = record { market_id = market; clients = []; listener = ws.next } in
    record {
      matched = ap (λ ls. ws.next ∷ ls) v.matched;
      distinct = (
        All-mono (λ r. r.listener < ws.next) (Differs new) ws.rooms (λ r h. ground arith) v.older,
        v.distinct,
      );
      older = (
        omega arith,
        All-mono (λ r. r.listener < ws.next) (λ r. r.listener < suc ws.next) ws.rooms
            (λ r h. omega arith) v.older,
      );
    }

join_room-IsServing :
    (conn market : ℕ) (ws : WsServer) → IsServing ws → IsServing (join_room conn market ws)
unfolding join_room update
join_room-IsServing conn market ws (cs, v) =
    elim (Bool-cases (is_some (select (of_room market) ws.rooms))) [
      | inl h ↦ rw h (
        All-update HasClients (of_room market) (add_client conn) ws.rooms (λ r _. ground arith) cs,
        update-IsListening market (add_client conn) (λ r. refl) ws v,
      )
      | inr h ↦ rw h (
        rw (eq_self market) (ground arith, cs),
        update-IsListening market (add_client conn) (λ r. refl) (create_room market ws)
            (create_room-IsListening market ws v),
      )
    ]

leave_from-IsServing :
    (conn market : ℕ) (ws : WsServer) (o : Option Room)
    → select (of_room market) ws.rooms ≡ o
    → IsServing ws
    → IsServing (leave_from conn market ws o)
leave_from-IsServing conn market ws none e w = w
leave_from-IsServing conn market ws (some r) e (cs, v) =
    elim (Bool-cases (length (remove conn r.clients) == 0)) [
      | inl h ↦ rw h (
        All-delete HasClients market ws.rooms cs,
        record {
          matched = rw v.matched (sym (map-delete market ws.rooms r e v.distinct));
          distinct = delete-Distinct market ws.rooms v.distinct;
          older = All-delete (λ q. q.listener < ws.next) market ws.rooms v.older;
        },
      )
      | inr h ↦ rw h (
        All-update_one HasClients (of_room market) (drop_client conn) ws.rooms r e h cs,
        update-IsListening market (drop_client conn) (λ r. refl) ws v,
      )
    ]

step-IsServing : (ws ws' : WsServer) → Step ws ws' → IsServing ws → IsServing ws'
unfolding leave_room
step-IsServing ws _ (joined conn market _) w = join_room-IsServing conn market ws w
step-IsServing ws _ (left conn market _) w =
    leave_from-IsServing conn market ws (select (of_room market) ws.rooms) refl w

-- After any sequence of joins and leaves, each one step under the server's lock: every room has a
-- client, and the listeners to Redis that run are those of the rooms, one for each and no two the same,
-- so that no listener is left behind when its room goes.
pub Reachable-IsServing : (ws : WsServer) → Reachable ws → IsServing ws
Reachable-IsServing _ started = (tt, record { matched = refl; distinct = tt; older = tt })
Reachable-IsServing ws (stepped before _ h s) =
    step-IsServing before ws s (Reachable-IsServing before h)

-- The first user of a market who joins and leaves leaves the rooms and the running listeners as they
-- were; only the next listener is another one.
pub leave_room-join_room :
    (conn market : ℕ) (ws : WsServer)
    → is_some (select (of_room market) ws.rooms) ≡ false
    → leave_room conn market (join_room conn market ws) ≡ record ws { next = suc ws.next }
unfolding leave_room join_room select update remove delete
leave_room-join_room conn market ws h = simp (h, eq_self market, eq_self conn, eq_self ws.next)
