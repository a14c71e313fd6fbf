-- ===== src/Queue/FanOut.antt =====
-- internal/infrastructure/persistence/delivery_queue_manager.go: `FanOutMessage`, one message to
-- every device of a user in one statement.
use neo_nect_server.Base.{
  ℕ, ◌+◌, none, some, String, List, [], ◌∷◌, ◌==◌, nat_eq, string_eq, Bytes, length, if◌then◌else◌,
}
use neo_nect_server.Error.{ok, mailbox_full}
use neo_nect_server.Db.{QueueRow, Tables, Db, pure, raise, ◌>>=◌, statement}
use neo_nect_server.Queue.{QueueConfig, is_for, mailbox_bytes, has_room, append_row}

-- The rows of one `INSERT … SELECT … UNION ALL …`. SQLite evaluates the whole SELECT over the table
-- as it was before the statement, since the statement reads the table that it inserts into.
unfoldable pub last_sequence : String → List QueueRow → ℕ → ℕ
last_sequence device_id [] last = last
last_sequence device_id (q ∷ rows) last =
    last_sequence device_id rows (if is_for device_id q then q.sequence else last)

abbrev pub fan_out_row : ℕ → String → Bytes → ℕ → List QueueRow → QueueRow
fan_out_row now device_id payload ttl_seconds rows = record {
  id = 0;
  device_id = device_id;
  payload = payload;
  expiry = now + ttl_seconds;
  sequence = last_sequence device_id rows 0 + 1;
  retry_count = 0;
  next_retry = 0;
  ack_deadline = 0;
  message_id = none;
  sender_device_id = none;
  protocol_version = some 1;
}

-- the rows selected over the table `rows`, in the order of the devices
unfoldable pub fan_out_rows :
    QueueConfig → ℕ → List String → Bytes → ℕ → List QueueRow → List QueueRow
unfolding last_sequence mailbox_bytes
fan_out_rows cfg now [] payload ttl_seconds rows = []
fan_out_rows cfg now (d ∷ device_ids) payload ttl_seconds rows =
    let rest = fan_out_rows cfg now device_ids payload ttl_seconds rows in
    if has_room cfg d payload rows then fan_out_row now d payload ttl_seconds rows ∷ rest else rest

unfoldable pub append_rows : List QueueRow → Tables → Tables
append_rows [] t = t
append_rows (q ∷ rows) t = append_rows rows (append_row q t)

unfoldable pub fan_out_message : QueueConfig → ℕ → List String → Bytes → ℕ → Db (Unit {0})
unfolding fan_out_rows append_rows
fan_out_message cfg now [] payload ttl_seconds = pure tt
fan_out_message cfg now (d ∷ device_ids) payload ttl_seconds = do
  affected ← statement (λ t.
      let rows = fan_out_rows cfg now (d ∷ device_ids) payload ttl_seconds t.delivery_queue in
      ok (length rows, append_rows rows t))
  if affected == 0 then raise mailbox_full else pure tt
