-- ===== src/Devices/Service.antt =====
-- internal/service/device_service.go: the device service, over the device repository. `protect` and
-- `reveal` are the vault's, on the bytes of the texts that the source gives them, and `hash` is
-- `security.ComputeHash`.
use neo_nect_server.Base.{ℕ, Bool, String, List, [], ◌∷◌, Bytes}
use neo_nect_server.Error.{Result, ok, err, user_not_found}
use neo_nect_server.Db.{Db, pure, raise, ◌>>=◌, attempt, statement}
use neo_nect_server.Friends.Service.{select_user_id}
use neo_nect_server.Relay.{get_devices_by_user, is_active_device_owned_by_user}
use neo_nect_server.Devices.{
  DeviceKey, register_device, is_device_owned_by_user, get_device_public_key,
  get_devices_and_keys_by_user, delete_device,
}

-- after `Protect`
unfoldable pub protected : ℕ → String → ℕ → Result Bytes → Db (Unit {0})
protected uid device_id max_devices (err e) = raise e
protected uid device_id max_devices (ok protected_key) =
    register_device uid device_id protected_key max_devices

unfoldable pub register_own : (Bytes → Result Bytes) → ℕ → ℕ → String → Bytes → Db (Unit {0})
unfolding protected
register_own protect max_devices uid device_id public_key =
    protected uid device_id max_devices (protect public_key)

unfoldable pub validate_device_ownership : ℕ → String → Db Bool
validate_device_ownership uid device_id = is_device_owned_by_user uid device_id

unfoldable pub validate_active_device_ownership : ℕ → String → Db Bool
validate_active_device_ownership uid device_id = is_active_device_owned_by_user uid device_id

-- after `Reveal`
unfoldable pub key_revealed : Result Bytes → Db Bytes
key_revealed (ok decrypted_key) = pure decrypted_key
key_revealed (err e) = raise e

unfoldable pub get_own_public_key : (Bytes → Result Bytes) → String → Db Bytes
unfolding key_revealed
get_own_public_key reveal device_id = do
  protected_key ← get_device_public_key device_id
  key_revealed (reveal protected_key)

unfoldable pub list_devices : ℕ → Db (List String)
list_devices uid = get_devices_by_user uid

-- one device of the loop: a corrupted key is skipped
unfoldable pub keep_key : String → Result Bytes → List DeviceKey → List DeviceKey
keep_key device_id (err _) keys = keys
keep_key device_id (ok decrypted) keys =
    record { device_id = device_id; public_key = decrypted } ∷ keys

unfoldable pub reveal_all : (Bytes → Result Bytes) → List DeviceKey → List DeviceKey
unfolding keep_key
reveal_all reveal [] = []
reveal_all reveal (k ∷ keys) = keep_key k.device_id (reveal k.public_key) (reveal_all reveal keys)

-- after `GetUserIdByUsername`
unfoldable pub recipient : Result ℕ → Db ℕ
recipient (ok uid) = pure uid
recipient (err _) = raise user_not_found

unfoldable pub get_recipient_keys :
    (String → String) → (Bytes → Result Bytes) → String → Db (List DeviceKey)
unfolding recipient reveal_all select_user_id
get_recipient_keys hash reveal username = do
  found ← attempt (statement (select_user_id (hash username)))
  uid ← recipient found
  device_keys ← get_devices_and_keys_by_user uid
  pure (reveal_all reveal device_keys)

unfoldable pub revoke_own : ℕ → String → Db (Unit {0})
revoke_own uid device_id = delete_device uid device_id
