-- ===== src/Sockets.antt =====
-- internal/service/websocket_manager.go: the connections of the WebSocket manager. A connection is the
-- number under which it was installed. Each function is one section of the code that no other
-- goroutine can cut: what is done under `sessionMutex`, or one operation of the channel `connSem`.
pub mod Steps
pub mod Sound
pub mod Ends
pub mod Reached
pub mod Drain
mod Tests
use neo_nect_server.Base.{
  ℕ, suc, ◌+◌, ◌-◌, Bool, true, false, Option, none, some, String, List, [], ◌∷◌, ltb, ◌==◌, nat_eq,
  string_eq, if◌then◌else◌, any, map, ◌++◌, Assoc, lookup, insert, remove,
}

-- `activeSessions`, `len(connSem)`, and the goroutines: how many handlers are between the semaphore
-- and the map, which connections a handler reads from and for which device, which connections have
-- been closed, and which `Shutdown` has still to close.
pub record Manager : Type 0 where
  pub active_sessions : Assoc String ℕ
  pub conn_sem : ℕ
  pub upgrading : ℕ
  pub serving : Assoc ℕ String
  pub closed : List ℕ
  pub closing : List ℕ
  pub next : ℕ

-- `NewWebSocketManager`
abbrev pub init : Manager
init = record {
  active_sessions = [];
  conn_sem = 0;
  upgrading = 0;
  serving = [];
  closed = [];
  closing = [];
  next = 0;
}

abbrev pub is_closed : ℕ → Manager → Bool
is_closed conn m = any (λ c. c == conn) m.closed

-- `conn.Close()`
unfoldable pub close : ℕ → Manager → Manager
close conn m = record m { closed = conn ∷ m.closed }

-- the `select` on `connSem`: none where the channel is full
unfoldable pub acquire : ℕ → Manager → Option Manager
acquire max m =
    if ltb m.conn_sem max
    then some (record m { conn_sem = m.conn_sem + 1; upgrading = m.upgrading + 1 })
    else none

-- `Upgrade` failed
unfoldable pub upgrade_failed : Manager → Manager
upgrade_failed m = record m { conn_sem = m.conn_sem - 1; upgrading = m.upgrading - 1 }

-- the session that is closed when another takes its place
unfoldable pub replaced : Option ℕ → List ℕ → List ℕ
replaced none closed = closed
replaced (some existing) closed = existing ∷ closed

-- after `Upgrade`, under the mutex: the connection gets the number `m.next`
unfoldable pub install : String → Manager → Manager
unfolding replaced
install device_id m = record m {
  active_sessions = insert device_id m.next m.active_sessions;
  upgrading = m.upgrading - 1;
  serving = insert m.next device_id m.serving;
  closed = replaced (lookup device_id m.active_sessions) m.closed;
  next = suc m.next;
}

-- `if m.activeSessions[deviceID] == s { delete(m.activeSessions, deviceID) }`
unfoldable pub is_session_of : ℕ → Option ℕ → Bool
is_session_of conn none = false
is_session_of conn (some c) = c == conn

unfoldable pub forget : String → ℕ → Assoc String ℕ → Assoc String ℕ
unfolding is_session_of
forget device_id conn sessions =
    if is_session_of conn (lookup device_id sessions) then remove device_id sessions else sessions

-- `conn.Close()`, and the session removed
unfoldable pub drop : String → ℕ → Manager → Manager
unfolding forget
drop device_id conn m = record m {
  active_sessions = forget device_id conn m.active_sessions;
  closed = conn ∷ m.closed;
}

-- the deferred function of a handler, after its last `ReadMessage`: the session removed, and the place
-- in the channel given back, which no other section reads in between; a `drop` before it is the state
-- between the two
unfoldable pub finish : String → ℕ → Manager → Manager
unfolding drop
finish device_id conn m = record (drop device_id conn m) {
  conn_sem = m.conn_sem - 1;
  serving = remove conn m.serving;
}

-- after the lookup of `DeliverMessage`; `written` says whether `WriteMessage` returned without an error
unfoldable pub deliver_to : String → Option ℕ → Bool → Manager → Bool × Manager
unfolding drop
deliver_to device_id none written m = (false, m)
deliver_to device_id (some conn) true m = (true, m)
deliver_to device_id (some conn) false m = (false, drop device_id conn m)

unfoldable pub deliver_message : String → Bool → Manager → Bool × Manager
unfolding deliver_to
deliver_message device_id written m =
    deliver_to device_id (lookup device_id m.active_sessions) written m

unfoldable pub disconnect_device : String → Manager → Manager
unfolding replaced
disconnect_device device_id m = record m {
  active_sessions = remove device_id m.active_sessions;
  closed = replaced (lookup device_id m.active_sessions) m.closed;
}

-- the part of `Shutdown` under the mutex, and one pass of the loop after it
unfoldable pub take_sessions : Manager → Manager
take_sessions m = record m {
  active_sessions = [];
  closing = map (λ s. s.1) m.active_sessions ++ m.closing;
}

unfoldable pub close_taken : List ℕ → Manager → Manager
unfolding close
close_taken [] m = m
close_taken (conn ∷ rest) m = record (close conn m) { closing = rest }

unfoldable pub close_next : Manager → Manager
unfolding close_taken
close_next m = close_taken m.closing m

unfoldable pub is_present : Option ℕ → Bool
is_present none = false
is_present (some _) = true

unfoldable pub is_device_online : String → Manager → Bool
unfolding is_present
is_device_online device_id m = is_present (lookup device_id m.active_sessions)
