-- ===== src/Rooms.antt =====
-- internal/ws/wsServer.go: rooms of connections, one for each market that somebody watches, with a
-- listener to Redis for each. The server's lock `Mu` makes a join and a leave one step each. A
-- connection is a number, and so is the context of a listener.
pub mod Listeners
pub mod Broadcast
use cex_go.Prelude.{
  ℕ, suc, ◌+◌, ◌==◌, Bool, Option, none, some, List, [], ◌∷◌, length, if◌then◌else◌,
}
use cex_go.Database.Table.{select, update, is_some}

pub record Room : Type 0 where
  pub market_id : ℕ
  pub clients : List ℕ
  pub listener : ℕ

-- `next` is the context that the next `context.WithCancel` makes.
pub record WsServer : Type 0 where
  pub rooms : List Room
  pub listeners : List ℕ
  pub next : ℕ

abbrev pub of_room : ℕ → Room → Bool
of_room market r = r.market_id == market

-- `delete` from a map or a set, by the first element that has the key
unfoldable pub remove : ℕ → List ℕ → List ℕ
remove n [] = []
remove n (x ∷ xs) = if x == n then xs else x ∷ remove n xs

unfoldable pub delete : ℕ → List Room → List Room
delete market [] = []
delete market (r ∷ rs) = if of_room market r then rs else r ∷ delete market rs

-- `room.clients[conn] = true`
abbrev pub add_client : ℕ → Room → Room
add_client conn r = record r { clients = conn ∷ remove conn r.clients }

abbrev pub drop_client : ℕ → Room → Room
drop_client conn r = record r { clients = remove conn r.clients }

-- The first user of a market: a room without clients, and its listener
abbrev pub create_room : ℕ → WsServer → WsServer
create_room market ws = record {
  rooms = record { market_id = market; clients = []; listener = ws.next } ∷ ws.rooms;
  listeners = ws.next ∷ ws.listeners;
  next = suc ws.next;
}

abbrev pub enter_room : ℕ → ℕ → WsServer → WsServer
enter_room conn market ws = record ws { rooms = update (of_room market) (add_client conn) ws.rooms }

unfoldable pub join_room : ℕ → ℕ → WsServer → WsServer
join_room conn market ws =
    if is_some (select (of_room market) ws.rooms)
    then enter_room conn market ws
    else enter_room conn market (create_room market ws)

-- The room of the market is there: the last user to leave stops its listener and destroys it.
abbrev pub leave_found : ℕ → ℕ → WsServer → Room → WsServer
leave_found conn market ws r =
    if length (remove conn r.clients) == 0
    then record ws { rooms = delete market ws.rooms; listeners = remove r.listener ws.listeners }
    else record ws { rooms = update (of_room market) (drop_client conn) ws.rooms }

abbrev pub leave_from : ℕ → ℕ → WsServer → Option Room → WsServer
leave_from conn market ws none = ws
leave_from conn market ws (some r) = leave_found conn market ws r

unfoldable pub leave_room : ℕ → ℕ → WsServer → WsServer
leave_room conn market ws = leave_from conn market ws (select (of_room market) ws.rooms)

-- What can happen to the server
pub data Step : WsServer → WsServer → Type 0 where
  joined : (conn market : ℕ) (ws : WsServer) → Step ws (join_room conn market ws)
  left : (conn market : ℕ) (ws : WsServer) → Step ws (leave_room conn market ws)

abbrev pub empty_server : WsServer
empty_server = record { rooms = []; listeners = []; next = 0 }

pub data Reachable : WsServer → Type 0 where
  started : Reachable empty_server
  stepped : (ws ws' : WsServer) → Reachable ws → Step ws ws' → Reachable ws'
