-- ===== src/Sockets/Reached.antt =====
-- internal/service/websocket_manager.go: whatever the goroutines do, in every order of their sections.
use neo_nect_server.Base.{ℕ, refl, arith, nat_eq, string_eq, lookup}
use neo_nect_server.Sockets.{Manager, init}
use neo_nect_server.Sockets.Steps.{
  Step, acquired, failed, installed, finished, heartbeat_failed, delivery_failed, disconnected,
  sessions_taken, next_closed, Reachable, new, step,
}
use neo_nect_server.Sockets.Sound.{
  IsSound, acquire-IsSound, upgrade_failed-IsSound, install-IsSound, close-IsSound,
}
use neo_nect_server.Sockets.Ends.{
  drop-IsSound, finish-IsSound, disconnect_device-IsSound, take_sessions-IsSound,
  close_next-IsSound,
}

init-IsSound : (max : ℕ) → IsSound max init
unfolding lookup
init-IsSound max = record {
  held = refl;
  bounded = omega arith;
  one_session = tt;
  one_handler = tt;
  numbered = λ c d h. absurd cc;
  served = λ d c h. absurd cc;
  leaving = λ c d h. absurd cc;
}

Step-IsSound : (max : ℕ) {m m' : Manager} → Step max m m' → IsSound max m → IsSound max m'
Step-IsSound max (acquired h) s = acquire-IsSound max _ _ s h
Step-IsSound max (failed n u) s = upgrade_failed-IsSound max n _ u s
Step-IsSound max (installed n device_id u) s = install-IsSound max n device_id _ u s
Step-IsSound max (finished device_id conn h) s = finish-IsSound max device_id conn _ h s
Step-IsSound max (heartbeat_failed conn) s = close-IsSound max conn _ s
Step-IsSound max (delivery_failed device_id conn) s = drop-IsSound max device_id conn _ s
Step-IsSound max (disconnected device_id) s = disconnect_device-IsSound max device_id _ s
Step-IsSound max sessions_taken s = take_sessions-IsSound max _ s
Step-IsSound max next_closed s = close_next-IsSound max _ s

-- In every state that the goroutines of the manager reach, in any interleaving: the semaphore counts
-- the handlers and is within its capacity, the session of a device has a handler that reads its
-- connection, and a connection that a handler reads is the session of its device, or closed, or one
-- that `Shutdown` will close.
pub Reachable-IsSound : (max : ℕ) {m : Manager} → Reachable max m → IsSound max m
Reachable-IsSound max new = init-IsSound max
Reachable-IsSound max (step r s) = Step-IsSound max s (Reachable-IsSound max r)
