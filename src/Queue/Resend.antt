-- ===== src/Queue/Resend.antt =====
-- internal/infrastructure/persistence/delivery_queue_manager.go: an envelope that `EnqueueEnvelope`
-- has accepted, and the same envelope sent again.
use mathlib.Core.Path.{subst}
use neo_nect_server.Base.{
  ℕ, ◌+◌, ◌≡◌, ◌≢◌, refl, sym, ◌∙◌, ap, inl, inr, true, false, some, none, arith, ltb, beq_self,
  nat_eq, string_eq, bytes_eq, length, find, find-snoc, Bool-cases, Option-cases,
}
use neo_nect_server.Error.{Error, Result, ok, err, mailbox_full, envelope_conflict}
use neo_nect_server.Db.{QueueRow, Tables}
use neo_nect_server.Queue.{
  QueueConfig, has_room, append_row, Envelope, envelope_row, has_message, is_same_envelope,
  text_or_empty, enqueue_envelope,
}
use neo_nect_server.Queue.Acceptance.{verdict, at_call, enqueue_envelope_refines}

-- The envelope is in the queue, under its id.
abbrev pub IsStored : Envelope → Tables → Type 0
IsStored e t =
    (q : QueueRow) × (find (has_message e.message_id) t.delivery_queue ≡ some q)
    × (is_same_envelope e q ≡ true)

row_is_same :
    (now : ℕ) (e : Envelope) (ttl sequence i : ℕ)
    → is_same_envelope e (record (envelope_row now e ttl sequence) { id = i }) ≡ true
unfolding is_same_envelope text_or_empty
row_is_same now e ttl sequence i =
    rw (beq_self e.sender_device_id, beq_self e.recipient_device_id, beq_self e.payload)

find-append_row :
    (now : ℕ) (e : Envelope) (ttl sequence : ℕ) (t : Tables)
    → find (has_message e.message_id) t.delivery_queue ≡ none
    → find
        (has_message e.message_id)
        (append_row (envelope_row now e ttl sequence) t).delivery_queue
      ≡ some (record (envelope_row now e ttl sequence) { id = t.last_queue_id + 1 })
find-append_row now e ttl sequence t missing =
    find-snoc (has_message e.message_id) t.delivery_queue
      (record (envelope_row now e ttl sequence) { id = t.last_queue_id + 1 }) missing
      (beq_self e.message_id)

refusal : (r : Result (Unit {0})) (x : Error) → r ≡ err x → r ≢ ok tt
refusal r x e h = cc

module _ (cfg : QueueConfig) (now : ℕ) (e : Envelope) (ttl sequence : ℕ) (t : Tables) where
  verdict-small :
      (verdict cfg now e ttl sequence t).0 ≡ ok tt
      → ltb cfg.max_envelope_bytes (length e.payload) ≡ false
  unfolding verdict
  verdict-small h = ground arith

  verdict-IsStored :
      (verdict cfg now e ttl sequence t).0 ≡ ok tt → IsStored e (verdict cfg now e ttl sequence t).1
  unfolding verdict
  verdict-IsStored h = elim (Option-cases (find (has_message e.message_id) t.delivery_queue)) [
    | inl missing ↦
        elim (Bool-cases (has_room cfg e.recipient_device_id e.payload t.delivery_queue)) [
          | inl room ↦
              rw (verdict-small h, missing, room)
                (
                  record (envelope_row now e ttl sequence) { id = t.last_queue_id + 1 },
                  find-append_row now e ttl sequence t missing,
                  row_is_same now e ttl sequence (t.last_queue_id + 1),
                )
          | inr full ↦ absurd (
              refusal (err mailbox_full) mailbox_full refl
                (rw (verdict-small h, missing, full) at h))
        ]
    | inr (q, found) ↦ elim (Bool-cases (is_same_envelope e q)) [
      | inl same ↦ rw (verdict-small h, found, same) (q, found, same)
      | inr other ↦ absurd (
          refusal (err envelope_conflict) envelope_conflict refl
            (rw (verdict-small h, found, other) at h))
    ]
  ]

  verdict-repeat :
      ltb cfg.max_envelope_bytes (length e.payload) ≡ false
      → IsStored e t
      → verdict cfg now e ttl sequence t ≡ (ok tt, t)
  unfolding verdict
  verdict-repeat small (q, found, same) = rw (small, found, same)

-- On a driver that does not fail: an envelope that was accepted stands in the queue under its id, and
-- sending it again at once, at any time and with any lifetime and sequence, is accepted and changes
-- nothing.
pub enqueue_envelope_once :
    (cfg : QueueConfig) (now now' : ℕ) (e : Envelope) (ttl ttl' sequence sequence' n n' : ℕ)
    (t : Tables)
    → (enqueue_envelope cfg now e ttl sequence (at_call t n)).0 ≡ ok tt
    → IsStored e (enqueue_envelope cfg now e ttl sequence (at_call t n)).1.tables
      × ((enqueue_envelope cfg now' e ttl' sequence'
            (at_call (enqueue_envelope cfg now e ttl sequence (at_call t n)).1.tables n')).0
          ≡ ok tt)
      × ((enqueue_envelope cfg now' e ttl' sequence'
            (at_call (enqueue_envelope cfg now e ttl sequence (at_call t n)).1.tables n')).1.tables
          ≡ (enqueue_envelope cfg now e ttl sequence (at_call t n)).1.tables)
enqueue_envelope_once cfg now now' e ttl ttl' sequence sequence' n n' t h =
    let first = enqueue_envelope_refines cfg now e ttl sequence n t in
    let accepted = sym first.0 ∙ h in
    let stored =
      subst (IsStored e) (sym first.1) (verdict-IsStored cfg now e ttl sequence t accepted) in
    let after = (enqueue_envelope cfg now e ttl sequence (at_call t n)).1.tables in
    let again = enqueue_envelope_refines cfg now' e ttl' sequence' n' after in
    let same =
      verdict-repeat cfg now' e ttl' sequence' after
        (verdict-small cfg now e ttl sequence t accepted) stored in
    (stored, again.0 ∙ ap (λ v. v.0) same, again.1 ∙ ap (λ v. v.1) same)
