-- ===== src/Devices.antt =====
-- internal/infrastructure/persistence/device_manager.go: the device repository. The queries that the
-- relay makes of it are in the module of the relay.
mod Tests
pub mod Service
pub mod Registry
pub mod Revocation
pub mod Runs
pub mod Revoked
use neo_nect_server.Base.{
  ℕ, Bool, true, false, not, ◌&&◌, Option, none, some, String, List, [], ◌∷◌, ◌++◌, ltb, ◌==◌,
  nat_eq, string_eq, Bytes, if◌then◌else◌, any, find, filter, count, update, map,
}
use neo_nect_server.Error.{
  Error, Result, ok, err, no_rows, unique_violation, foreign_key_violation, device_conflict,
  device_limit_reached,
}
use neo_nect_server.Db.{
  DeviceRow, DeviceStatus, Tables, Db, pure, raise, ◌>>=◌, attempt, statement, transaction,
}
use neo_nect_server.Friends.{has_user}
use neo_nect_server.Relay.{is_active}

abbrev pub is_device : String → DeviceRow → Bool
is_device device_id d = d.device_id == device_id

abbrev pub is_of : ℕ → DeviceRow → Bool
is_of uid d = d.user_id == uid

-- `Queries.CreateDevice` under the constraints of its table: the rows affected
unfoldable pub insert_device : ℕ → String → Bytes → ℕ → Tables → Result (ℕ × Tables)
insert_device uid device_id public_key max_devices t =
    if not (ltb (count (is_of uid) t.devices) max_devices)
    then ok (0, t)
    else if any (is_device device_id) t.devices
    then err unique_violation
    else if not (has_user uid t)
    then err foreign_key_violation
    else ok (
      1,
      record t {
        devices =
            t.devices
            ++ (record {
              device_id = device_id;
              user_id = uid;
              identity_key = public_key;
              status = DeviceStatus.active;
            }
                ∷ []);
      },
    )

unfoldable pub unique_to_conflict : Error → Error
unique_to_conflict unique_violation = device_conflict
unique_to_conflict e = e

-- after the INSERT
unfoldable pub device_created : Result ℕ → Db (Unit {0})
unfolding unique_to_conflict
device_created (err e) = raise (unique_to_conflict e)
device_created (ok affected) = if affected == 0 then raise device_limit_reached else pure tt

unfoldable pub register_device : ℕ → String → Bytes → ℕ → Db (Unit {0})
unfolding device_created insert_device
register_device uid device_id public_key max_devices = transaction (do
  inserted ← attempt (statement (insert_device uid device_id public_key max_devices))
  device_created inserted)

unfoldable pub is_device_owned_by_user : ℕ → String → Db Bool
is_device_owned_by_user uid device_id =
    statement (λ t. ok (any (λ d. is_device device_id d && is_of uid d) t.devices, t))

-- `Queries.GetDevicePublicKey`
unfoldable pub select_public_key : String → Tables → Result (Bytes × Tables)
select_public_key device_id t = elim (find (λ d. is_device device_id d && is_active d) t.devices) [
  | none ↦ err no_rows
  | some d ↦ ok (d.identity_key, t)
]

unfoldable pub get_device_public_key : String → Db Bytes
unfolding select_public_key
get_device_public_key device_id = statement (select_public_key device_id)

pub record DeviceKey : Type 0 where
  pub device_id : String
  pub public_key : Bytes

unfoldable pub get_devices_and_keys_by_user : ℕ → Db (List DeviceKey)
get_devices_and_keys_by_user uid = statement (λ t. ok (
  map (λ d. record { device_id = d.device_id; public_key = d.identity_key })
      (filter (λ d. is_of uid d && is_active d) t.devices),
  t,
))

abbrev pub is_revocable : ℕ → String → DeviceRow → Bool
is_revocable uid device_id d = is_device device_id d && is_of uid d && is_active d

abbrev pub revoke : DeviceRow → DeviceRow
revoke d = record d { status = DeviceStatus.revoked }

unfoldable pub delete_device : ℕ → String → Db (Unit {0})
delete_device uid device_id =
    statement
      (λ t. ok (tt, record t { devices = update (is_revocable uid device_id) revoke t.devices }))
