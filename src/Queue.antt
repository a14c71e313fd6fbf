-- ===== src/Queue.antt =====
-- internal/infrastructure/persistence/delivery_queue_manager.go: the delivery queue, one mailbox for
-- each device. `now` is what `time.Now().Unix()` answers. A time and a lifetime in seconds are far
-- below 2 ^ 62, so their sum does not wrap.
pub mod FanOut
pub mod Quota
pub mod FanQuota
pub mod Acceptance
pub mod Resend
pub mod Claim
pub mod Runs
pub mod Exclusive
mod Tests
use neo_nect_server.Base.{
  ℕ, ◌+◌, Bool, true, false, not, ◌&&◌, ◌||◌, Option, none, some, String, List, [], ◌∷◌, ◌++◌, ltb,
  leb, ◌==◌, nat_eq, string_eq, bytes_eq, Bytes, length, if◌then◌else◌, any, find, filter, count,
  delete, update, take,
}
use neo_nect_server.Error.{
  Error, Result, ok, err, no_rows, envelope_too_large, envelope_conflict, mailbox_full,
}
use neo_nect_server.Db.{QueueRow, Tables, Db, pure, raise, ◌>>=◌, ◌>>◌, attempt, statement}

-- the limits that `config.AppConfig` sets
pub record QueueConfig : Type 0 where
  pub max_envelope_bytes : ℕ
  pub max_mailbox_messages : ℕ
  pub max_mailbox_bytes : ℕ
  pub delivery_batch_size : ℕ

abbrev pub is_for : String → QueueRow → Bool
is_for device_id q = q.device_id == device_id

-- `SELECT COUNT(*) FROM delivery_queue WHERE device_id = ?`
abbrev pub mailbox_messages : String → List QueueRow → ℕ
mailbox_messages device_id rows = count (is_for device_id) rows

-- `SELECT IFNULL(SUM(LENGTH(payload)), 0) FROM delivery_queue WHERE device_id = ?`
unfoldable pub mailbox_bytes : String → List QueueRow → ℕ
mailbox_bytes device_id [] = 0
mailbox_bytes device_id (q ∷ rows) =
    let rest = mailbox_bytes device_id rows in
    if is_for device_id q then length q.payload + rest else rest

-- the WHERE clause of both insertions that mind the quota
abbrev pub has_room : QueueConfig → String → Bytes → List QueueRow → Bool
has_room cfg device_id payload rows =
    ltb (mailbox_messages device_id rows) cfg.max_mailbox_messages
    && leb (mailbox_bytes device_id rows + length payload) cfg.max_mailbox_bytes

-- a row of the queue, with the id that AUTOINCREMENT gives it
abbrev pub append_row : QueueRow → Tables → Tables
append_row q t = record t {
  delivery_queue = t.delivery_queue ++ (record q { id = t.last_queue_id + 1 } ∷ []);
  last_queue_id = t.last_queue_id + 1;
}

unfoldable pub max_sequence : String → List QueueRow → ℕ
max_sequence device_id [] = 0
max_sequence device_id (q ∷ rows) =
    let rest = max_sequence device_id rows in
    if is_for device_id q && ltb rest q.sequence then q.sequence else rest

-- `SELECT COALESCE(MAX(sequence), 0)`
unfoldable pub get_last_sequence : String → Db ℕ
get_last_sequence device_id = statement (λ t. ok (max_sequence device_id t.delivery_queue, t))

unfoldable pub enqueue : ℕ → String → Bytes → ℕ → ℕ → Db (Unit {0})
enqueue now device_id payload ttl_seconds sequence = statement (λ t. ok (
  tt,
  append_row
      (record {
        id = 0;
        device_id = device_id;
        payload = payload;
        expiry = now + ttl_seconds;
        sequence = sequence;
        retry_count = 0;
        next_retry = now;
        ack_deadline = 0;
        message_id = none;
        sender_device_id = none;
        protocol_version = some 1;
      })
      t,
))

abbrev pub has_message : String → QueueRow → Bool
has_message message_id q = elim q.message_id [ none ↦ false | some m ↦ m == message_id ]

-- an envelope as `EnqueueEnvelope` is given it
pub record Envelope : Type 0 where
  pub message_id : String
  pub sender_device_id : String
  pub recipient_device_id : String
  pub protocol_version : ℕ
  pub payload : Bytes

abbrev pub envelope_row : ℕ → Envelope → ℕ → ℕ → QueueRow
envelope_row now e ttl_seconds sequence = record {
  id = 0;
  device_id = e.recipient_device_id;
  payload = e.payload;
  expiry = now + ttl_seconds;
  sequence = sequence;
  retry_count = 0;
  next_retry = now;
  ack_deadline = 0;
  message_id = some e.message_id;
  sender_device_id = some e.sender_device_id;
  protocol_version = some e.protocol_version;
}

-- the INSERT of `EnqueueEnvelope`: the rows affected. The index on `message_id` is unique.
unfoldable pub insert_envelope : QueueConfig → QueueRow → String → Tables → Result (ℕ × Tables)
insert_envelope cfg row message_id t =
    if not (has_room cfg row.device_id row.payload t.delivery_queue)
    then ok (0, t)
    else if any (has_message message_id) t.delivery_queue
    then ok (0, t)
    else ok (1, append_row row t)

unfoldable pub select_message : String → Tables → Result (QueueRow × Tables)
select_message message_id t = elim (find (has_message message_id) t.delivery_queue) [
  | none ↦ err no_rows
  | some q ↦ ok (q, t)
]

-- `eSender`: the empty text for NULL
unfoldable pub text_or_empty : Option String → String
text_or_empty none = ""
text_or_empty (some s) = s

unfoldable pub is_same_envelope : Envelope → QueueRow → Bool
unfolding text_or_empty
is_same_envelope e q = not (
    not (text_or_empty q.sender_device_id == e.sender_device_id)
    || not (q.device_id == e.recipient_device_id)
    || not (q.payload == e.payload))

unfoldable pub no_rows_to_full : Error → Error
no_rows_to_full no_rows = mailbox_full
no_rows_to_full e = e

-- when the INSERT added no row
unfoldable pub existing_checked : Envelope → Result QueueRow → Db (Unit {0})
unfolding is_same_envelope no_rows_to_full
existing_checked e (ok q) = if is_same_envelope e q then pure tt else raise envelope_conflict
existing_checked e (err other) = raise (no_rows_to_full other)

unfoldable pub enqueue_envelope : QueueConfig → ℕ → Envelope → ℕ → ℕ → Db (Unit {0})
unfolding insert_envelope select_message existing_checked
enqueue_envelope cfg now e ttl_seconds sequence =
    if ltb cfg.max_envelope_bytes (length e.payload) then raise envelope_too_large else do
      affected ←
          statement (insert_envelope cfg (envelope_row now e ttl_seconds sequence) e.message_id)
      if not (affected == 0) then pure tt else do
        existing ← attempt (statement (select_message e.message_id))
        existing_checked e existing

-- `ORDER BY`, stable
unfoldable pub insert_by : (QueueRow → ℕ) → QueueRow → List QueueRow → List QueueRow
insert_by key q [] = q ∷ []
insert_by key q (p ∷ rows) =
    let rest = insert_by key q rows in if leb (key q) (key p) then q ∷ p ∷ rows else p ∷ rest

unfoldable pub order_by : (QueueRow → ℕ) → List QueueRow → List QueueRow
unfolding insert_by
order_by key [] = []
order_by key (q ∷ rows) = insert_by key q (order_by key rows)

unfoldable pub get_queue : ℕ → String → Db (List QueueRow)
unfolding order_by
get_queue now device_id = statement (λ t. ok (
  order_by (λ q. q.sequence)
      (filter (λ q. is_for device_id q && ltb now q.expiry) t.delivery_queue),
  t,
))

unfoldable pub update_state : ℕ → ℕ → ℕ → ℕ → Db (Unit {0})
update_state item retry_count next_retry ack_deadline = statement (λ t. ok (
  tt,
  record t {
    delivery_queue =
        update (λ q. q.id == item)
          (λ q. record q {
            retry_count = retry_count;
            next_retry = next_retry;
            ack_deadline = ack_deadline;
          })
          t.delivery_queue;
  },
))

abbrev pub is_claimable : ℕ → ℕ → QueueRow → Bool
is_claimable item current_next_retry q = q.id == item && leb q.next_retry current_next_retry

-- `Queries.ClaimItem`: whether a row was affected
unfoldable pub claim_item : ℕ → ℕ → ℕ → Db Bool
claim_item item next_retry current_next_retry = statement (λ t. ok (
  not (count (is_claimable item current_next_retry) t.delivery_queue == 0),
  record t {
    delivery_queue =
        update (is_claimable item current_next_retry) (λ q. record q { next_retry = next_retry })
          t.delivery_queue;
  },
))

unfoldable pub acknowledge : String → ℕ → Db (Unit {0})
acknowledge device_id item = statement (λ t. ok (
  tt,
  record t { delivery_queue = delete (λ q. q.id == item && is_for device_id q) t.delivery_queue },
))

unfoldable pub cleanup : ℕ → Db (Unit {0})
cleanup now =
    statement
      (λ t. ok (tt, record t { delivery_queue = delete (λ q. leb q.expiry now) t.delivery_queue }))

unfoldable pub get_due_items : QueueConfig → ℕ → Db (List QueueRow)
unfolding order_by
get_due_items cfg now = statement (λ t. ok (
  take cfg.delivery_batch_size
      (order_by (λ q. q.next_retry) (filter (λ q. leb q.next_retry now) t.delivery_queue)),
  t,
))
