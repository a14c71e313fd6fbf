-- ===== src/Devices/Runs.antt =====
-- internal/infrastructure/persistence/device_manager.go: runs of the calls that change the devices,
-- by any users and in any order, and what they make of the relay's fan-out.
use neo_nect_server.Base.{ℕ, String, Bytes, List, [], ◌∷◌}
use neo_nect_server.Db.{World, Db}
use neo_nect_server.Db.Keeps.{Keeps}
use neo_nect_server.Devices.{register_device, delete_device}
use neo_nect_server.Devices.Registry.{
  IsRegistry, register_device-IsRegistry, delete_device-IsRegistry,
}

pub data Operation : Type 0 where
  register : ℕ → String → Bytes → Operation
  delete : ℕ → String → Operation

unfoldable pub call : ℕ → Operation → Db (Unit {0})
call max_devices (register uid device_id public_key) =
    register_device uid device_id public_key max_devices
call max_devices (delete uid device_id) = delete_device uid device_id

-- What the calls leave, one after another, whatever each of them answers.
unfoldable pub run_all : ℕ → List Operation → World → World
unfolding call
run_all max_devices [] w = w
run_all max_devices (op ∷ ops) w = run_all max_devices ops (call max_devices op w).1

call-IsRegistry : (max : ℕ) (op : Operation) → Keeps (IsRegistry max) (call max op)
unfolding call
call-IsRegistry max (register uid device_id public_key) =
    register_device-IsRegistry uid device_id public_key max
call-IsRegistry max (delete uid device_id) = delete_device-IsRegistry uid device_id max

-- Any run of `RegisterDevice` and `DeleteDevice`, by any users and whichever driver calls fail, keeps
-- to the registry: no device id stands twice, and no user has more devices than the limit, revoked
-- ones counted.
pub run_all-IsRegistry :
    (max : ℕ) (ops : List Operation) (w : World)
    → IsRegistry max w.tables
    → IsRegistry max (run_all max ops w).tables
unfolding run_all
run_all-IsRegistry max [] w r = r
run_all-IsRegistry max (op ∷ ops) w r =
    run_all-IsRegistry max ops (call max op w).1 ((call-IsRegistry max op).at w r)
