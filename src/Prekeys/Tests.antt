-- ===== src/Prekeys/Tests.antt =====
-- Runs of internal/infrastructure/persistence/prekey_manager.go on a device with two one-time keys.
use neo_nect_server.Base.{
  ℕ, count, arith, string_eq, ◌≡◌, ◌≢◌, refl, true, none, List, [], ◌∷◌, nat_eq, any, find, update,
}
use neo_nect_server.Error.{Result, ok}
use neo_nect_server.Db.{DeviceRow, DeviceStatus, OneTimeRow, PrekeyStatus, Tables, quiet}
use neo_nect_server.Prekeys.{Bundle, OneTimePrekey, consume_curve, consume, use_up}
use neo_nect_server.Prekeys.Upload.{upload_prekeys}
use neo_nect_server.Prekeys.OnceOnly.{is_free_key, consume_curve_once}
use neo_nect_server.Prekeys.Replay.{Response}
use neo_nect_server.Prekeys.Room.{IsWithinLimit}
use neo_nect_server.Prekeys.Limit.{upload_prekeys-IsWithinLimit}

abbrev tablet : DeviceStatus → DeviceRow
tablet s = record { device_id = "tablet"; user_id = 1; identity_key = 9 ∷ []; status = s }

abbrev key_row : ℕ → OneTimeRow
key_row k = record {
  device_id = "tablet";
  key_id = k;
  public_key = k ∷ [];
  status = PrekeyStatus.available;
}

abbrev with_keys : DeviceStatus → List OneTimeRow → Tables
with_keys s keys = record {
  users = [];
  user_blocks = [];
  devices = tablet s ∷ [];
  friendships = [];
  friend_requests = [];
  delivery_queue = [];
  signed_curve = [];
  one_time_curve = keys;
  signed_pq = [];
  one_time_pq = [];
  idempotency = [];
  last_user_id = 2;
  last_queue_id = 0;
}

abbrev two_keys : Tables
two_keys = with_keys DeviceStatus.active (key_row 7 ∷ key_row 4 ∷ [])

abbrev after_first : Tables
after_first = record two_keys { one_time_curve = use_up "tablet" 4 two_keys.one_time_curve }

abbrev after_second : Tables
after_second = record two_keys { one_time_curve = use_up "tablet" 7 after_first.one_time_curve }

abbrev handed_out : ℕ → OneTimePrekey
handed_out k = record { key_id = k; public_key = k ∷ [] }

takes_lowest : consume_curve "tablet" two_keys ≡ ok (handed_out 4, after_first)
unfolding consume_curve consume find update
takes_lowest = refl

takes_other : consume_curve "tablet" after_first ≡ ok (handed_out 7, after_second)
unfolding consume_curve consume find update
takes_other = refl

consume_curve_once_example :
    (any (is_free_key "tablet" 4) two_keys.one_time_curve ≡ true) × (◌≢◌ {A = ℕ} 7 4)
consume_curve_once_example =
    consume_curve_once "tablet" two_keys after_first after_second (handed_out 4) (handed_out 7)
      takes_lowest takes_other

-- the tables with the user of the request in them
abbrev with_user : Tables
with_user = record two_keys {
  users = record { id = 1; username_hash = "a"; identity_blob = "a" } ∷ [];
}

abbrev answer_of : ℕ → Bundle → Result Response
answer_of k bundle = ok (k ∷ [], 200)

two_keys-IsWithinLimit : IsWithinLimit two_keys
unfolding count
two_keys-IsWithinLimit = record { curve = λ d. ground arith; pq = λ d. omega arith }

upload_prekeys-IsWithinLimit_example :
    IsWithinLimit
      (upload_prekeys "tablet" none
        (handed_out 8 ∷ handed_out 7 ∷ [])
        none
        []
        (quiet two_keys)).1.tables
upload_prekeys-IsWithinLimit_example =
    upload_prekeys-IsWithinLimit "tablet" none (handed_out 8 ∷ handed_out 7 ∷ []) none []
      (quiet two_keys) two_keys-IsWithinLimit
