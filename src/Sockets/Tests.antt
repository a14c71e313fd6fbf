-- ===== src/Sockets/Tests.antt =====
-- Runs of internal/service/websocket_manager.go: a phone that connects twice, with room for three.
use neo_nect_server.Base.{
  suc, ◌≡◌, refl, String, true, false, nat_eq, string_eq, lookup, insert, any,
}
use neo_nect_server.Sockets.{Manager, init, acquire, install, replaced, is_closed, is_device_online}
use neo_nect_server.Sockets.Steps.{Reachable, new, step, acquired, installed}
use neo_nect_server.Sockets.Sound.{IsSound}
use neo_nect_server.Sockets.Reached.{Reachable-IsSound}
use neo_nect_server.Sockets.Drain.{drain, drain_all}

abbrev waiting : Manager → Manager
waiting m = record m { conn_sem = suc m.conn_sem; upgrading = suc m.upgrading }

abbrev phone_twice : Manager
phone_twice = install "phone" (waiting (install "phone" (waiting init)))

phone_twice-Reachable : Reachable 3 phone_twice
unfolding acquire install
phone_twice-Reachable =
    step (step (step (step new (acquired refl)) (installed 0 "phone" refl)) (acquired refl))
      (installed 0 "phone" refl)

first_closed : is_closed 0 phone_twice ≡ true
unfolding install replaced lookup insert any
first_closed = refl

Reachable-IsSound_example : IsSound 3 phone_twice
Reachable-IsSound_example = Reachable-IsSound 3 phone_twice-Reachable

drain_all_example :
    ((drain phone_twice.serving phone_twice).conn_sem ≡ phone_twice.upgrading)
    × ((d : String) → is_device_online d (drain phone_twice.serving phone_twice) ≡ false)
drain_all_example = drain_all 3 phone_twice phone_twice-Reachable
