-- ===== src/Queue/Quota.antt =====
-- internal/infrastructure/persistence/delivery_queue_manager.go: the quota of a mailbox.
use neo_nect_server.Base.{
  ℕ, ◌+◌, ◌≤◌, ◌≡◌, refl, ap, inl, inr, Bool, true, String, List, [], ◌∷◌, ◌++◌, arith, ◌==◌,
  nat_eq, string_eq, any, find, count, delete, update, count-append, count-delete-le, count-update,
  Bool-cases, Option-cases,
}
use neo_nect_server.Error.{Result, ok, err}
use neo_nect_server.Db.{QueueRow, Tables}
use neo_nect_server.Db.Keeps.{
  Keeps, Keeps-statement, Keeps-pure, Keeps-raise, Keeps-bind, Keeps-if, Keeps-attempt, After,
  success, failure,
}
use neo_nect_server.Queue.{
  QueueConfig, is_for, mailbox_messages, mailbox_bytes, has_room, append_row, Envelope,
  envelope_row, has_message, insert_envelope, select_message, existing_checked, enqueue_envelope,
  update_state, claim_item, acknowledge, cleanup,
}

-- No mailbox holds more messages or more bytes than the configuration allows.
pub record IsWithinQuota (cfg : QueueConfig) (t : Tables) : Type 0 where
  pub messages : (d : String) → mailbox_messages d t.delivery_queue ≤ cfg.max_mailbox_messages
  pub bytes : (d : String) → mailbox_bytes d t.delivery_queue ≤ cfg.max_mailbox_bytes

pub mailbox_bytes-append :
    (d : String) (xs ys : List QueueRow)
    → mailbox_bytes d (xs ++ ys) ≡ mailbox_bytes d xs + mailbox_bytes d ys
unfolding mailbox_bytes
mailbox_bytes-append d [] ys = omega arith
mailbox_bytes-append d (x ∷ xs) ys = ground (arith, mailbox_bytes-append d xs ys)

mailbox_bytes-delete-le :
    (d : String) (q : QueueRow → Bool) (xs : List QueueRow)
    → mailbox_bytes d (delete q xs) ≤ mailbox_bytes d xs
unfolding mailbox_bytes delete
mailbox_bytes-delete-le d q [] = omega arith
mailbox_bytes-delete-le d q (x ∷ xs) = ground (arith, mailbox_bytes-delete-le d q xs)

mailbox_bytes-update :
    (d : String) (q : QueueRow → Bool) (f : QueueRow → QueueRow) (xs : List QueueRow)
    → ((a : QueueRow) → is_for d (f a) ≡ is_for d a)
    → ((a : QueueRow) → (f a).payload ≡ a.payload)
    → mailbox_bytes d (update q f xs) ≡ mailbox_bytes d xs
unfolding mailbox_bytes update
mailbox_bytes-update d q f [] h k = refl
mailbox_bytes-update d q f (x ∷ xs) h k =
    ground (arith, h x, k x, mailbox_bytes-update d q f xs h k)

module _ (cfg : QueueConfig) where
  append-IsWithinQuota :
      (row : QueueRow) (t : Tables)
      → IsWithinQuota cfg t
      → has_room cfg row.device_id row.payload t.delivery_queue ≡ true
      → IsWithinQuota cfg (append_row row t)
  unfolding count mailbox_bytes
  append-IsWithinQuota row t w room = record {
    messages = λ d. ground (
      arith,
      count-append (is_for d) t.delivery_queue (record row { id = t.last_queue_id + 1 } ∷ []),
      w.messages d,
      string_eq.same_iff row.device_id d,
    );
    bytes = λ d. ground (
      arith,
      mailbox_bytes-append d t.delivery_queue (record row { id = t.last_queue_id + 1 } ∷ []),
      w.bytes d,
      string_eq.same_iff row.device_id d,
    );
  }

  delete-IsWithinQuota :
      (q : QueueRow → Bool) (t : Tables)
      → IsWithinQuota cfg t
      → IsWithinQuota cfg (record t { delivery_queue = delete q t.delivery_queue })
  delete-IsWithinQuota q t w = record {
    messages = λ d. omega (arith, w.messages d, count-delete-le (is_for d) q t.delivery_queue);
    bytes = λ d. omega (arith, w.bytes d, mailbox_bytes-delete-le d q t.delivery_queue);
  }

  update-IsWithinQuota :
      (q : QueueRow → Bool) (f : QueueRow → QueueRow) (t : Tables)
      → IsWithinQuota cfg t
      → ((a : QueueRow) → (f a).device_id ≡ a.device_id)
      → ((a : QueueRow) → (f a).payload ≡ a.payload)
      → IsWithinQuota cfg (record t { delivery_queue = update q f t.delivery_queue })
  update-IsWithinQuota q f t w h k = record {
    messages = λ d. omega (
      arith,
      w.messages d,
      count-update (is_for d) q f t.delivery_queue (λ a. ap (λ s. s == d) (h a)),
    );
    bytes = λ d. omega (
      arith,
      w.bytes d,
      mailbox_bytes-update d q f t.delivery_queue (λ a. ap (λ s. s == d) (h a)) k,
    );
  }

  insert_envelope-IsWithinQuota :
      (row : QueueRow) (message_id : String) (t : Tables)
      → IsWithinQuota cfg t
      → After (IsWithinQuota cfg) (insert_envelope cfg row message_id t)
  unfolding insert_envelope
  insert_envelope-IsWithinQuota row message_id t w =
      elim (Bool-cases (has_room cfg row.device_id row.payload t.delivery_queue)) [
        | inr full ↦ rw full (success w)
        | inl room ↦ elim (Bool-cases (any (has_message message_id) t.delivery_queue)) [
          | inl known ↦ rw (room, known) (success w)
          | inr fresh ↦ rw (room, fresh) (success (append-IsWithinQuota row t w room))
        ]
      ]

  select_message_keeps :
      (m : String) (t : Tables)
      → IsWithinQuota cfg t
      → After (IsWithinQuota cfg) (select_message m t)
  unfolding select_message
  select_message_keeps m t w = elim (Option-cases (find (has_message m) t.delivery_queue)) [
    | inl missing ↦ rw (missing, select_message) failure
    | inr (q, found) ↦ rw (found, select_message) (success w)
  ]

  existing_checked-Keeps :
      (e : Envelope) (r : Result QueueRow) → Keeps (IsWithinQuota cfg) (existing_checked e r)
  unfolding existing_checked
  existing_checked-Keeps e (ok q) = Keeps-if _ _ _ (Keeps-pure tt) (Keeps-raise _)
  existing_checked-Keeps e (err x) = Keeps-raise _

  -- `EnqueueEnvelope` never takes a mailbox over its quota, whichever driver calls fail.
  pub enqueue_envelope-IsWithinQuota :
      (now : ℕ) (e : Envelope) (ttl_seconds sequence : ℕ)
      → Keeps (IsWithinQuota cfg) (enqueue_envelope cfg now e ttl_seconds sequence)
  unfolding enqueue_envelope
  enqueue_envelope-IsWithinQuota now e ttl_seconds sequence = Keeps-if _ _ _ (Keeps-raise _) (
      Keeps-bind _ _
        (Keeps-statement _
          (insert_envelope-IsWithinQuota (envelope_row now e ttl_seconds sequence) e.message_id))
        λ affected. Keeps-if _ _ _ (Keeps-pure tt) (
          Keeps-bind _ _ (Keeps-attempt _ (Keeps-statement _ (select_message_keeps _)))
            (existing_checked-Keeps e)))

  -- An acknowledgement keeps every mailbox within its quota.
  pub acknowledge-IsWithinQuota :
      (d : String) (item : ℕ) → Keeps (IsWithinQuota cfg) (acknowledge d item)
  unfolding acknowledge
  acknowledge-IsWithinQuota d item = Keeps-statement _ λ t w. success (delete-IsWithinQuota _ t w)

  -- The removal of expired messages keeps every mailbox within its quota.
  pub cleanup-IsWithinQuota : (now : ℕ) → Keeps (IsWithinQuota cfg) (cleanup now)
  unfolding cleanup
  cleanup-IsWithinQuota now = Keeps-statement _ λ t w. success (delete-IsWithinQuota _ t w)

  pub update_state-IsWithinQuota :
      (item retry_count next_retry ack_deadline : ℕ)
      → Keeps (IsWithinQuota cfg) (update_state item retry_count next_retry ack_deadline)
  unfolding update_state
  update_state-IsWithinQuota item retry_count next_retry ack_deadline =
      Keeps-statement _ λ t w. success (update-IsWithinQuota _ _ t w (λ a. refl) (λ a. refl))

  pub claim_item-IsWithinQuota :
      (item next_retry current_next_retry : ℕ)
      → Keeps (IsWithinQuota cfg) (claim_item item next_retry current_next_retry)
  unfolding claim_item
  claim_item-IsWithinQuota item next_retry current_next_retry =
      Keeps-statement _ λ t w. success (update-IsWithinQuota _ _ t w (λ a. refl) (λ a. refl))
