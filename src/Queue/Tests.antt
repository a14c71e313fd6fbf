-- ===== src/Queue/Tests.antt =====
-- Runs of internal/infrastructure/persistence/delivery_queue_manager.go on a mailbox with room for two
-- messages of at most four bytes.
use neo_nect_server.Base.{
  ◌≡◌, ◌≢◌, refl, true, List, [], ◌∷◌, arith, ◌≤◌, inr, nat_eq, any, find, count, bytes_beq,
}
use neo_nect_server.Error.{ok, err, envelope_conflict}
use neo_nect_server.Db.{Tables, QueueRow, quiet, statement}
use neo_nect_server.Queue.{QueueConfig, Envelope, enqueue_envelope, claim_item, mailbox_bytes}
use neo_nect_server.Queue.Acceptance.{verdict, at_call, enqueue_envelope_refines}
use neo_nect_server.Queue.Resend.{IsStored, enqueue_envelope_once}
use neo_nect_server.Queue.Exclusive.{claim_item_exclusive}
use neo_nect_server.Queue.Quota.{IsWithinQuota}
use neo_nect_server.Queue.FanQuota.{IsDistinct}
use neo_nect_server.Queue.Runs.{
  QueueCall, reschedule, send_one, send_all, confirm, lock, after_calls, after_calls-IsWithinQuota,
}

abbrev small_box : QueueConfig
small_box = record {
  max_envelope_bytes = 4;
  max_mailbox_messages = 2;
  max_mailbox_bytes = 8;
  delivery_batch_size = 10;
}

abbrev with_queue : List QueueRow → Tables
with_queue rows = record {
  users = [];
  user_blocks = [];
  devices = [];
  friendships = [];
  friend_requests = [];
  delivery_queue = rows;
  signed_curve = [];
  one_time_curve = [];
  signed_pq = [];
  one_time_pq = [];
  idempotency = [];
  last_user_id = 0;
  last_queue_id = 7;
}

abbrev hello : Envelope
hello = record {
  message_id = "m1";
  sender_device_id = "phone";
  recipient_device_id = "laptop";
  protocol_version = 1;
  payload = 104 ∷ 105 ∷ [];
}

-- another text under the same message id
abbrev forged : Envelope
forged = record hello { payload = 120 ∷ [] }

abbrev one_queued : Tables
one_queued = (enqueue_envelope small_box 100 hello 60 1 (at_call (with_queue []) 0)).1.tables

enqueue_envelope_refines_example :
    ((enqueue_envelope small_box 105 forged 60 2 (at_call one_queued 0)).0 ≡ err envelope_conflict)
    × ((enqueue_envelope small_box 105 forged 60 2 (at_call one_queued 0)).1.tables ≡ one_queued)
unfolding enqueue_envelope statement verdict find count mailbox_bytes any bytes_beq
enqueue_envelope_refines_example = enqueue_envelope_refines small_box 105 forged 60 2 0 one_queued

hello_accepted : (enqueue_envelope small_box 100 hello 60 1 (at_call (with_queue []) 0)).0 ≡ ok tt
unfolding enqueue_envelope statement count mailbox_bytes any
hello_accepted = refl

enqueue_envelope_once_example :
    IsStored hello one_queued
    × ((enqueue_envelope small_box 200 hello 30 5 (at_call one_queued 3)).0 ≡ ok tt)
    × ((enqueue_envelope small_box 200 hello 30 5 (at_call one_queued 3)).1.tables ≡ one_queued)
enqueue_envelope_once_example =
    enqueue_envelope_once small_box 100 200 hello 60 30 1 5 0 3 (with_queue []) hello_accepted

-- The row has id 8 and is due at 100.
first_claim : (claim_item 8 220 100 (quiet one_queued)).0 ≡ ok true
unfolding claim_item enqueue_envelope statement count mailbox_bytes any
first_claim = refl

given : 8 ≤ one_queued.last_queue_id
unfolding enqueue_envelope statement count mailbox_bytes any
given = omega arith

-- Another envelope is sent, and the first worker writes the state of the item.
abbrev meanwhile : List QueueCall
meanwhile = send_one 110 hello 60 2 ∷ reschedule 8 0 170 170 ∷ []

claim_item_exclusive_example :
    (claim_item 8 225 100 (
      quiet (after_calls small_box meanwhile (claim_item 8 220 100 (quiet one_queued)).1).tables)).0
    ≢ ok true
claim_item_exclusive_example =
    claim_item_exclusive small_box 8 220 225 100 meanwhile (quiet one_queued)
      (quiet (after_calls small_box meanwhile (claim_item 8 220 100 (quiet one_queued)).1).tables)
      (omega arith) given first_claim (inr (omega arith), tt) refl

empty_IsWithinQuota : IsWithinQuota small_box (with_queue [])
unfolding count mailbox_bytes
empty_IsWithinQuota = record { messages = λ d. omega arith; bytes = λ d. omega arith }

laptop_then_phone : IsDistinct ("laptop" ∷ "phone" ∷ [])
unfolding any
laptop_then_phone = (refl, (refl, tt))

after_calls-IsWithinQuota_example :
    IsWithinQuota small_box
      (after_calls small_box
        (send_one 100 hello 60 1
          ∷ send_all 101 ("laptop" ∷ "phone" ∷ []) (1 ∷ []) 60
          ∷ confirm "laptop" 8
          ∷ lock 9 200 0
          ∷ [])
        (quiet (with_queue []))).tables
after_calls-IsWithinQuota_example =
    after_calls-IsWithinQuota small_box
      (send_one 100 hello 60 1
        ∷ send_all 101 ("laptop" ∷ "phone" ∷ []) (1 ∷ []) 60
        ∷ confirm "laptop" 8
        ∷ lock 9 200 0
        ∷ [])
      (quiet (with_queue [])) (laptop_then_phone, tt) empty_IsWithinQuota
