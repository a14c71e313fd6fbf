-- ===== src/Queue/Acceptance.antt =====
-- internal/infrastructure/persistence/delivery_queue_manager.go: what `EnqueueEnvelope` promises to
-- the sender of an envelope.
use neo_nect_server.Base.{
  ℕ, suc, ◌≡◌, refl, ◌⊎◌, inl, inr, true, false, some, none, String, arith, ltb, nat_eq, string_eq,
  bytes_eq, length, if◌then◌else◌, any, find, find-none, find-some, Bool-cases,
}
use neo_nect_server.Error.{
  Result, ok, err, no_rows, envelope_too_large, envelope_conflict, mailbox_full,
}
use neo_nect_server.Db.{QueueRow, Tables, World, statement}
use neo_nect_server.Queue.{
  QueueConfig, has_room, append_row, Envelope, envelope_row, has_message, is_same_envelope,
  insert_envelope, select_message, existing_checked, enqueue_envelope,
}

-- What becomes of an envelope, told in the order in which a sender sees it: the size, then whether
-- the id is queued already, then the room in the mailbox.
unfoldable pub verdict : QueueConfig → ℕ → Envelope → ℕ → ℕ → Tables → Result (Unit {0}) × Tables
verdict cfg now e ttl_seconds sequence t =
    if ltb cfg.max_envelope_bytes (length e.payload)
    then (err envelope_too_large, t)
    else elim (find (has_message e.message_id) t.delivery_queue) [
      | some q ↦ if is_same_envelope e q then (ok tt, t) else (err envelope_conflict, t)
      | none ↦
          if has_room cfg e.recipient_device_id e.payload t.delivery_queue
          then (ok tt, append_row (envelope_row now e ttl_seconds sequence) t)
          else (err mailbox_full, t)
    ]

abbrev pub at_call : Tables → ℕ → World
at_call t n = record { tables = t; calls = n; fails = λ _. false }

-- The answer for a message id that is queued.
known_answer : Envelope → QueueRow → Result (Unit {0})
known_answer e q = if is_same_envelope e q then ok tt else err envelope_conflict

existing_checked-known :
    (e : Envelope) (q : QueueRow) (w : World) → existing_checked e (ok q) w ≡ (known_answer e q, w)
unfolding existing_checked known_answer
existing_checked-known e q w = ground arith

select_message-found :
    (m : String) (t : Tables) (q : QueueRow)
    → find (has_message m) t.delivery_queue ≡ some q
    → select_message m t ≡ ok (q, t)
unfolding select_message
select_message-found m t q found = rw (found, select_message)

select_message-missing :
    (m : String) (t : Tables)
    → find (has_message m) t.delivery_queue ≡ none
    → select_message m t ≡ err no_rows
unfolding select_message
select_message-missing m t missing = rw (missing, select_message)

too_large :
    (cfg : QueueConfig) (now : ℕ) (e : Envelope) (ttl sequence : ℕ) (w : World)
    → ltb cfg.max_envelope_bytes (length e.payload) ≡ true
    → enqueue_envelope cfg now e ttl sequence w ≡ (err envelope_too_large, w)
unfolding enqueue_envelope
too_large cfg now e ttl sequence w large = rw large

module _ (cfg : QueueConfig) (now : ℕ) (e : Envelope) (ttl sequence n : ℕ) (t : Tables)
    (small : ltb cfg.max_envelope_bytes (length e.payload) ≡ false) where
  queued :
      (t' : Tables)
      → insert_envelope cfg (envelope_row now e ttl sequence) e.message_id t ≡ ok (1, t')
      → enqueue_envelope cfg now e ttl sequence (at_call t n) ≡ (ok tt, at_call t' (suc n))
  unfolding enqueue_envelope statement
  queued t' inserted = rw (small, inserted)

  compared :
      (q : QueueRow)
      → insert_envelope cfg (envelope_row now e ttl sequence) e.message_id t ≡ ok (0, t)
      → find (has_message e.message_id) t.delivery_queue ≡ some q
      → enqueue_envelope cfg now e ttl sequence (at_call t n)
        ≡ (known_answer e q, at_call t (suc (suc n)))
  unfolding enqueue_envelope statement
  compared q passed found = rw (
    small,
    passed,
    select_message-found e.message_id t q found,
    existing_checked-known e q (at_call t (suc (suc n))),
  )

  refused :
      insert_envelope cfg (envelope_row now e ttl sequence) e.message_id t ≡ ok (0, t)
      → find (has_message e.message_id) t.delivery_queue ≡ none
      → enqueue_envelope cfg now e ttl sequence (at_call t n)
        ≡ (err mailbox_full, at_call t (suc (suc n)))
  unfolding enqueue_envelope statement existing_checked
  refused passed missing = rw (small, passed, select_message-missing e.message_id t missing)

  passed_over :
      has_room cfg e.recipient_device_id e.payload t.delivery_queue ≡ false
        ⊎ any (has_message e.message_id) t.delivery_queue ≡ true
      → insert_envelope cfg (envelope_row now e ttl sequence) e.message_id t ≡ ok (0, t)
  unfolding insert_envelope
  passed_over (inl full) = rw full
  passed_over (inr known) = ground arith

  inserted :
      has_room cfg e.recipient_device_id e.payload t.delivery_queue ≡ true
      → any (has_message e.message_id) t.delivery_queue ≡ false
      → insert_envelope cfg (envelope_row now e ttl sequence) e.message_id t
        ≡ ok (1, append_row (envelope_row now e ttl sequence) t)
  unfolding insert_envelope
  inserted room fresh = rw (room, fresh)

-- `EnqueueEnvelope`, on a driver that does not fail, refuses an envelope that is too large; answers
-- for a message id that is queued by comparing the two envelopes, even when the mailbox is full; and
-- otherwise queues the envelope if the mailbox has room. Nothing but that one row is added.
pub enqueue_envelope_refines :
    (cfg : QueueConfig) (now : ℕ) (e : Envelope) (ttl_seconds sequence n : ℕ) (t : Tables)
    → ((enqueue_envelope cfg now e ttl_seconds sequence (at_call t n)).0
        ≡ (verdict cfg now e ttl_seconds sequence t).0)
      × ((enqueue_envelope cfg now e ttl_seconds sequence (at_call t n)).1.tables
          ≡ (verdict cfg now e ttl_seconds sequence t).1)
unfolding verdict known_answer
enqueue_envelope_refines cfg now e ttl sequence n t =
    elim (Bool-cases (ltb cfg.max_envelope_bytes (length e.payload))) [
      | inl large ↦ rw (too_large cfg now e ttl sequence (at_call t n) large, large) (refl, refl)
      | inr small ↦ elim (Bool-cases (any (has_message e.message_id) t.delivery_queue)) [
        | inl known ↦
            let (q, found) = find-some (has_message e.message_id) t.delivery_queue known in
            rw
              (
                compared cfg now e ttl sequence n t small q
                    (passed_over cfg now e ttl sequence n t small (inr known)) found,
                small,
                found,
              )
              (elim (Bool-cases (is_same_envelope e q)) [
                | inl same ↦ rw same (refl, refl)
                | inr other ↦ rw other (refl, refl)
              ])
        | inr fresh ↦
            elim (Bool-cases (has_room cfg e.recipient_device_id e.payload t.delivery_queue)) [
              | inl room ↦
                  rw
                    (
                      queued cfg now e ttl sequence n t small _
                          (inserted cfg now e ttl sequence n t small room fresh),
                      small,
                      find-none (has_message e.message_id) t.delivery_queue fresh,
                      room,
                    )
                    (refl, refl)
              | inr full ↦
                  rw
                    (
                      refused cfg now e ttl sequence n t small
                          (passed_over cfg now e ttl sequence n t small (inl full))
                          (find-none (has_message e.message_id) t.delivery_queue fresh),
                      small,
                      find-none (has_message e.message_id) t.delivery_queue fresh,
                      full,
                    )
                    (refl, refl)
            ]
      ]
    ]
