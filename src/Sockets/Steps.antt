-- ===== src/Sockets/Steps.antt =====
-- internal/service/websocket_manager.go: the interleavings of the goroutines, as sequences of the
-- sections that each of them runs.
use neo_nect_server.Base.{ℕ, suc, String, some, ◌≡◌, lookup, nat_eq}
use neo_nect_server.Sockets.{
  Manager, init, acquire, upgrade_failed, install, finish, close, drop, disconnect_device,
  take_sessions, close_next,
}

-- One section of any goroutine. A handler acquires, upgrades, and installs its connection or gives
-- up; it finishes when `ReadMessage` fails. A heartbeat may close any connection, and a delivery
-- that failed drops a session that it looked up before.
pub data Step (max : ℕ) : Manager → Manager → Type 0 where
  acquired : {m m' : Manager} → acquire max m ≡ some m' → Step max m m'
  failed : {m : Manager} (n : ℕ) → m.upgrading ≡ suc n → Step max m (upgrade_failed m)
  installed :
      {m : Manager} (n : ℕ) (device_id : String)
      → m.upgrading ≡ suc n
      → Step max m (install device_id m)
  finished :
      {m : Manager} (device_id : String) (conn : ℕ)
      → lookup conn m.serving ≡ some device_id
      → Step max m (finish device_id conn m)
  heartbeat_failed : {m : Manager} (conn : ℕ) → Step max m (close conn m)
  delivery_failed :
      {m : Manager} (device_id : String) (conn : ℕ) → Step max m (drop device_id conn m)
  disconnected : {m : Manager} (device_id : String) → Step max m (disconnect_device device_id m)
  sessions_taken : {m : Manager} → Step max m (take_sessions m)
  next_closed : {m : Manager} → Step max m (close_next m)

-- The states that the manager comes to from `NewWebSocketManager`.
pub data Reachable (max : ℕ) : Manager → Type 0 where
  new : Reachable max init
  step : {m m' : Manager} → Reachable max m → Step max m m' → Reachable max m'
