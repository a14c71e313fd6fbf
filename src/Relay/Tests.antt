-- ===== src/Relay/Tests.antt =====
-- Runs of internal/service/relay_service.go.
use neo_nect_server.Base.{
  ℕ, Bool, true, List, count, leb, arith, ◌*◌, ◌^◌, ◌≤◌, ◌<◌, pos, negsuc, ltz, ◌≡◌, refl, false,
  some, [], ◌∷◌, ltb, ◌==◌, nat_eq, string_eq, any, find, min,
}
use neo_nect_server.Error.{Error, err}
use neo_nect_server.Db.{Tables, QueueRow, DeviceRow, DeviceStatus, quiet}
use neo_nect_server.Friends.{is_friendship, ordered}
use neo_nect_server.Queue.{QueueConfig, Envelope}
use neo_nect_server.Relay.{send_envelope}
use neo_nect_server.Relay.Worker.{
  signed, backoff_after, retry_count_at_claim, retry_count_at_failure,
}
use neo_nect_server.Relay.Backoff.{backoff_exact}
use neo_nect_server.Queue.Acceptance.{at_call}
use neo_nect_server.Relay.Scheduler.{dispatch_due_messages}
use neo_nect_server.Relay.Batch.{dispatch_due_messages_drains}
use neo_nect_server.Relay.Consent.{send_envelope_refused}

abbrev laptop : DeviceRow
laptop = record {
  device_id = "laptop";
  user_id = 1;
  identity_key = [];
  status = DeviceStatus.active;
}

abbrev two_strangers : Tables
two_strangers = record {
  users = [];
  user_blocks = [];
  devices = laptop ∷ [];
  friendships = [];
  friend_requests = [];
  delivery_queue = [];
  signed_curve = [];
  one_time_curve = [];
  signed_pq = [];
  one_time_pq = [];
  idempotency = [];
  last_user_id = 2;
  last_queue_id = 0;
}

abbrev letter : Envelope
letter = record {
  message_id = "m1";
  sender_device_id = "phone";
  recipient_device_id = "laptop";
  protocol_version = 1;
  payload = 1 ∷ [];
}

abbrev box : QueueConfig
box = record {
  max_envelope_bytes = 4;
  max_mailbox_messages = 2;
  max_mailbox_bytes = 8;
  delivery_batch_size = 10;
}

laptop_found : find (λ x. x.device_id == "laptop") two_strangers.devices ≡ some laptop
unfolding find
laptop_found = refl

not_friends : any (is_friendship (ordered 2 1).0 (ordered 2 1).1) two_strangers.friendships ≡ false
unfolding any
not_friends = refl

send_envelope_refused_example :
    ((x : Error) × ((send_envelope box 100 60 2 letter (quiet two_strangers)).0 ≡ err x))
    × ((send_envelope box 100 60 2 letter (quiet two_strangers)).1.tables ≡ two_strangers)
send_envelope_refused_example =
    send_envelope_refused box 100 60 2 letter laptop (quiet two_strangers) laptop_found refl
      not_friends

-- an item that failed five times
abbrev failing : QueueRow
failing = record {
  id = 8;
  device_id = "laptop";
  payload = 1 ∷ [];
  expiry = 900;
  sequence = 1;
  retry_count = 5;
  next_retry = 100;
  ack_deadline = 0;
  message_id = some "m1";
  sender_device_id = some "phone";
  protocol_version = some 1;
}

-- The product of the shift by 62 is negative, and so is not capped.
wrapped_negative : backoff_after 62 ≡ negsuc 9223372036854775807
unfolding backoff_after signed ltz
wrapped_negative = refl

five_is_few : ltb 20 (retry_count_at_claim failing) ≡ false
unfolding retry_count_at_claim
five_is_few = refl

backoff_exact_example :
    (backoff_after (retry_count_at_failure failing)
      ≡ pos (min (2 ^ retry_count_at_failure failing * 30) 3600))
    × (60 ≤ min (2 ^ retry_count_at_failure failing * 30) 3600)
    × (2 ^ retry_count_at_failure failing < 2 ^ 63)
    × (2 ^ retry_count_at_failure failing * 30 < 2 ^ 63)
backoff_exact_example = backoff_exact failing five_is_few

-- the queue with that item in it
abbrev one_due : Tables
one_due = record two_strangers { delivery_queue = failing ∷ [] }

abbrev offline : QueueRow → Bool
offline item = false

-- Each goroutine starts a second after the round.
abbrev a_second_later : QueueRow → ℕ
a_second_later item = 201

abbrev in_order : List QueueRow → List QueueRow
in_order items = items

one_fits : count (λ q. leb q.next_retry 200) one_due.delivery_queue ≤ 10
unfolding count
one_fits = omega arith

dispatch_due_messages_drains_example :
    any
      (λ q. leb q.next_retry 200)
      (dispatch_due_messages offline true a_second_later in_order box 200
        (at_call one_due 0)).1.tables.delivery_queue
    ≡ false
dispatch_due_messages_drains_example =
    dispatch_due_messages_drains offline true a_second_later in_order box 200 one_due 0
      (λ item. omega arith) (λ g items. refl) one_fits
