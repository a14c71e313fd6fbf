-- ===== src/Devices/Tests.antt =====
-- Runs of internal/infrastructure/persistence/device_manager.go on a user with room for two devices.
use neo_nect_server.Base.{
  ◌≡◌, refl, some, List, [], ◌∷◌, arith, string_eq, nat_eq, count, find, any, update,
}
use neo_nect_server.Error.{ok, err, device_limit_reached}
use neo_nect_server.Db.{DeviceRow, DeviceStatus, Tables, World, quiet, statement, transaction}
use neo_nect_server.Queue.{QueueConfig, Envelope}
use neo_nect_server.Relay.{send_envelope}
use neo_nect_server.Relay.Consent.{Refused}
use neo_nect_server.Devices.{is_device, register_device, delete_device}
use neo_nect_server.Devices.Registry.{IsRegistry}
use neo_nect_server.Devices.Runs.{Operation, register, delete, run_all, run_all-IsRegistry}
use neo_nect_server.Devices.Revoked.{delete_device_unreachable}

abbrev with_devices : List DeviceRow → Tables
with_devices rows = record {
  users = record { id = 1; username_hash = "alice"; identity_blob = "alice" } ∷ [];
  user_blocks = [];
  devices = rows;
  friendships = [];
  friend_requests = [];
  delivery_queue = [];
  signed_curve = [];
  one_time_curve = [];
  signed_pq = [];
  one_time_pq = [];
  idempotency = [];
  last_user_id = 1;
  last_queue_id = 0;
}

none-IsRegistry : IsRegistry 2 (with_devices [])
unfolding count
none-IsRegistry = record { unique = λ d. omega arith; limited = λ u. omega arith }

run_all-IsRegistry_example :
    IsRegistry 2
      (run_all 2
        (register 1 "phone" []
          ∷ register 1 "laptop" []
          ∷ delete 1 "phone"
          ∷ register 1 "watch" []
          ∷ [])
        (quiet (with_devices []))).tables
run_all-IsRegistry_example = run_all-IsRegistry 2 _ (quiet (with_devices [])) none-IsRegistry

-- A revoked device counts against the limit.
revoked_counted :
    (register_device 1 "watch" [] 2 (
      run_all 2
        (register 1 "phone" [] ∷ register 1 "laptop" [] ∷ delete 1 "phone" ∷ [])
        (quiet (with_devices [])))).0
    ≡ err device_limit_reached
unfolding register_device run_all delete_device statement transaction count any update
revoked_counted = refl

abbrev laptop : DeviceRow
laptop = record {
  device_id = "laptop";
  user_id = 1;
  identity_key = [];
  status = DeviceStatus.active;
}

abbrev box : QueueConfig
box = record {
  max_envelope_bytes = 4;
  max_mailbox_messages = 2;
  max_mailbox_bytes = 8;
  delivery_batch_size = 10;
}

abbrev letter : Envelope
letter = record {
  message_id = "m1";
  sender_device_id = "phone";
  recipient_device_id = "laptop";
  protocol_version = 2;
  payload = 1 ∷ [];
}

-- The owner registers the id again.
abbrev again : List Operation
again = register 1 "laptop" (7 ∷ []) ∷ []

abbrev after_revocation : World
after_revocation = run_all 5 again (delete_device 1 "laptop" (quiet (with_devices (laptop ∷ [])))).1

laptop_found : find (is_device "laptop") (laptop ∷ []) ≡ some laptop
unfolding find
laptop_found = refl

revoked : (delete_device 1 "laptop" (quiet (with_devices (laptop ∷ [])))).0 ≡ ok tt
unfolding delete_device statement
revoked = refl

delete_device_unreachable_example :
    Refused after_revocation.tables (send_envelope box 100 60 1 letter after_revocation)
delete_device_unreachable_example =
    delete_device_unreachable box 100 60 1 5 letter laptop again
      (quiet (with_devices (laptop ∷ []))) after_revocation laptop_found revoked refl
