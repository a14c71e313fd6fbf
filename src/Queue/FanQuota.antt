-- ===== src/Queue/FanQuota.antt =====
-- internal/infrastructure/persistence/delivery_queue_manager.go: `FanOutMessage` and the quota. Its
-- statement looks at the table once, before any of its rows is in.
use neo_nect_server.Base.{
  ℕ, ◌+◌, ◌≤◌, ◌≡◌, refl, false, String, List, [], ◌∷◌, arith, ◌==◌, nat_eq, string_eq, Bytes, any,
  count, count-append,
}
use neo_nect_server.Db.{QueueRow, Tables}
use neo_nect_server.Db.Keeps.{
  Keeps, Keeps-statement, Keeps-pure, Keeps-raise, Keeps-bind, Keeps-if, success,
}
use neo_nect_server.Queue.{QueueConfig, is_for, mailbox_messages, mailbox_bytes, append_row}
use neo_nect_server.Queue.FanOut.{fan_out_rows, append_rows, fan_out_message}
use neo_nect_server.Queue.Quota.{IsWithinQuota, mailbox_bytes-append}

-- No device twice: `devices.device_id` is unique.
abbrev pub IsDistinct : List String → Type 0
IsDistinct [] = Unit {0}
IsDistinct (d ∷ ds) = (any (λ x. x == d) ds ≡ false) × IsDistinct ds

messages-append_rows :
    (d : String) (rows : List QueueRow) (t : Tables)
    → mailbox_messages d (append_rows rows t).delivery_queue
      ≡ mailbox_messages d t.delivery_queue + mailbox_messages d rows
unfolding append_rows count
messages-append_rows d [] t = omega arith
messages-append_rows d (q ∷ rows) t = ground (
  arith,
  messages-append_rows d rows (append_row q t),
  count-append (is_for d) t.delivery_queue (record q { id = t.last_queue_id + 1 } ∷ []),
)

bytes-append_rows :
    (d : String) (rows : List QueueRow) (t : Tables)
    → mailbox_bytes d (append_rows rows t).delivery_queue
      ≡ mailbox_bytes d t.delivery_queue + mailbox_bytes d rows
unfolding append_rows mailbox_bytes
bytes-append_rows d [] t = omega arith
bytes-append_rows d (q ∷ rows) t = ground (
  arith,
  bytes-append_rows d rows (append_row q t),
  mailbox_bytes-append d t.delivery_queue (record q { id = t.last_queue_id + 1 } ∷ []),
)

module _ (cfg : QueueConfig) (now : ℕ) (payload : Bytes) (ttl : ℕ) (table : List QueueRow)
    (d : String) where
  others_messages :
      (ds : List String)
      → any (λ x. x == d) ds ≡ false
      → mailbox_messages d (fan_out_rows cfg now ds payload ttl table) ≡ 0
  unfolding fan_out_rows any count
  others_messages [] h = refl
  others_messages (x ∷ ds) h = ground (arith, others_messages ds)

  others_bytes :
      (ds : List String)
      → any (λ x. x == d) ds ≡ false
      → mailbox_bytes d (fan_out_rows cfg now ds payload ttl table) ≡ 0
  unfolding fan_out_rows any mailbox_bytes
  others_bytes [] h = refl
  others_bytes (x ∷ ds) h = ground (arith, others_bytes ds)

  messages_fit :
      (ds : List String)
      → IsDistinct ds
      → mailbox_messages d table ≤ cfg.max_mailbox_messages
      → mailbox_messages d table + mailbox_messages d (fan_out_rows cfg now ds payload ttl table)
        ≤ cfg.max_mailbox_messages
  unfolding fan_out_rows count
  messages_fit [] u h = omega arith
  messages_fit (x ∷ ds) (fresh, u) h =
      ground (arith, messages_fit ds u h, others_messages ds, string_eq.same_iff x d)

  bytes_fit :
      (ds : List String)
      → IsDistinct ds
      → mailbox_bytes d table ≤ cfg.max_mailbox_bytes
      → mailbox_bytes d table + mailbox_bytes d (fan_out_rows cfg now ds payload ttl table)
        ≤ cfg.max_mailbox_bytes
  unfolding fan_out_rows mailbox_bytes
  bytes_fit [] u h = omega arith
  bytes_fit (x ∷ ds) (fresh, u) h =
      ground (arith, bytes_fit ds u h, others_bytes ds, string_eq.same_iff x d)

-- `FanOutMessage` to devices of which none stands twice never takes a mailbox over its quota,
-- whichever driver calls fail.
pub fan_out_message-IsWithinQuota :
    (cfg : QueueConfig) (now : ℕ) (ds : List String) (payload : Bytes) (ttl_seconds : ℕ)
    → IsDistinct ds
    → Keeps (IsWithinQuota cfg) (fan_out_message cfg now ds payload ttl_seconds)
unfolding fan_out_message
fan_out_message-IsWithinQuota cfg now [] payload ttl u = Keeps-pure tt
fan_out_message-IsWithinQuota cfg now (x ∷ ds) payload ttl u =
    Keeps-bind _ _
      (Keeps-statement _ λ t w. success (record {
        messages = λ d. omega (
          arith,
          messages-append_rows d (fan_out_rows cfg now (x ∷ ds) payload ttl t.delivery_queue) t,
          messages_fit cfg now payload ttl t.delivery_queue d (x ∷ ds) u (w.messages d),
        );
        bytes = λ d. omega (
          arith,
          bytes-append_rows d (fan_out_rows cfg now (x ∷ ds) payload ttl t.delivery_queue) t,
          bytes_fit cfg now payload ttl t.delivery_queue d (x ∷ ds) u (w.bytes d),
        );
      }))
      (λ affected. Keeps-if _ _ _ (Keeps-raise _) (Keeps-pure tt))
