-- ===== src/Relay.antt =====
-- internal/service/relay_service.go: the relay, over the friendship, device and delivery queue
-- repositories. `now` is what `time.Now().Unix()` answers, `ttl` the lifetime that `SetTTL` set, and
-- `hash` stands for `security.ComputeHash`. A return value lists the user and packet of each call of
-- the notifier.
pub mod Worker
pub mod Backoff
pub mod Consent
pub mod Scheduler
pub mod Attempt
pub mod Due
pub mod Round
pub mod Drain
pub mod Batch
mod Tests
use neo_nect_server.Base.{
  ℕ, ◌+◌, Bool, true, false, not, ◌&&◌, ◌||◌, Option, none, some, String, List, [], ◌∷◌, ◌==◌,
  nat_eq, string_eq, Bytes, if◌then◌else◌, any, find, filter, map,
}
use neo_nect_server.Error.{
  Error, Result, ok, err, no_rows, envelope_conflict, mailbox_full, recipient_username_required,
  recipient_not_found, recipient_no_devices, recipient_device_not_found, duplicate_conflict,
  mailbox_quota_exceeded, unauthorized_sender, incomplete_envelope,
}
use neo_nect_server.Db.{
  DeviceRow, DeviceStatus, Tables, Db, pure, raise, ◌>>=◌, ◌>>◌, attempt, statement,
}
use neo_nect_server.Friends.{check_friendship}
use neo_nect_server.Friends.Service.{select_user_id}
use neo_nect_server.Queue.{QueueConfig, Envelope, enqueue_envelope, get_last_sequence, is_for}
use neo_nect_server.Queue.FanOut.{fan_out_message}

abbrev pub is_active : DeviceRow → Bool
is_active d = elim d.status [ DeviceStatus.active ↦ true | DeviceStatus.revoked ↦ false ]

-- `DeviceRepository.GetDevicesByUser`
unfoldable pub get_devices_by_user : ℕ → Db (List String)
get_devices_by_user uid =
    statement (λ t.
      ok (map (λ d. d.device_id) (filter (λ d. d.user_id == uid && is_active d) t.devices), t))

-- `DeviceRepository.GetDeviceOwner`
unfoldable pub select_device_owner : String → Tables → Result (ℕ × Tables)
select_device_owner device_id t = elim (find (λ d. d.device_id == device_id) t.devices) [
  | none ↦ err no_rows
  | some d ↦ ok (d.user_id, t)
]

-- `DeviceRepository.IsActiveDeviceOwnedByUser`
unfoldable pub is_active_device_owned_by_user : ℕ → String → Db Bool
is_active_device_owned_by_user uid device_id =
    statement (λ t.
      ok (any (λ d. d.device_id == device_id && d.user_id == uid && is_active d) t.devices, t))

-- the calls of `NotifyMessage`
abbrev pub Notices : Type 0
Notices = List (ℕ × Bytes)

unfoldable pub no_rows_to : Error → Error → Error
no_rows_to answer no_rows = answer
no_rows_to answer e = e

unfoldable pub looked_up : Error → Result ℕ → Db ℕ
unfolding no_rows_to
looked_up answer (ok uid) = pure uid
looked_up answer (err e) = raise (no_rows_to answer e)

-- `if senderUID != recipientUID { … }`
unfoldable pub authorize : ℕ → ℕ → Db (Unit {0})
authorize sender recipient = if sender == recipient then pure tt else do
  is_friend ← check_friendship sender recipient
  if is_friend then pure tt else raise unauthorized_sender

unfoldable pub queue_error : Error → Error
queue_error envelope_conflict = duplicate_conflict
queue_error mailbox_full = mailbox_quota_exceeded
queue_error e = e

-- after `EnqueueEnvelope` or `FanOutMessage`
unfoldable pub notified : ℕ → Bytes → Result (Unit {0}) → Db Notices
unfolding queue_error
notified recipient payload (ok _) = pure ((recipient, payload) ∷ [])
notified recipient payload (err e) = raise (queue_error e)

-- `FanOutMessage` makes a conflict of no message id, so its errors map as `EnqueueEnvelope`'s do.
unfoldable pub send : (String → String) → QueueConfig → ℕ → ℕ → ℕ → String → Bytes → Db Notices
unfolding looked_up notified select_user_id
send hash cfg now ttl sender to_username payload =
    if to_username == "" then raise recipient_username_required else do
      found ← attempt (statement (select_user_id (hash to_username)))
      recipient ← looked_up recipient_not_found found
      authorize sender recipient
      devices ← get_devices_by_user recipient
      sent ← (elim devices [
        | [] ↦ raise recipient_no_devices
        | d ∷ ds ↦ attempt (fan_out_message cfg now (d ∷ ds) payload ttl)
      ])
      notified recipient payload sent

-- `if err != nil { sequence = 0 }; sequence++`
unfoldable pub next_sequence : Result ℕ → ℕ
next_sequence (ok sequence) = sequence + 1
next_sequence (err _) = 1

unfoldable pub is_incomplete : Envelope → Bool
is_incomplete e = e.message_id == "" || e.sender_device_id == "" || e.recipient_device_id == ""

unfoldable pub send_envelope : QueueConfig → ℕ → ℕ → ℕ → Envelope → Db Notices
unfolding looked_up notified select_device_owner next_sequence is_incomplete
send_envelope cfg now ttl sender e = if is_incomplete e then raise incomplete_envelope else do
  found ← attempt (statement (select_device_owner e.recipient_device_id))
  recipient ← looked_up recipient_device_not_found found
  authorize sender recipient
  is_active ← is_active_device_owned_by_user recipient e.recipient_device_id
  if not is_active then raise recipient_device_not_found else do
    last ← attempt (get_last_sequence e.recipient_device_id)
    queued ← attempt (enqueue_envelope cfg now e ttl (next_sequence last))
    notified recipient e.payload queued
