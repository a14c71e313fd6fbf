-- ===== src/Queue/Exclusive.antt =====
-- internal/infrastructure/persistence/delivery_queue_manager.go: an item that was claimed is not claimed
-- again by the time read before, whatever becomes of the queue in between.
use neo_nect_server.Base.{
  ℕ, ◌+◌, ◌≤◌, ◌<◌, ◌≡◌, ◌≢◌, refl, inl, inr, ◌⊎◌, Bool, true, false, String, List, [], ◌∷◌, arith,
  ◌==◌, nat_eq, any, count, count-append, count-delete-le, delete, update, Bool-cases, Option-cases,
  find, Bytes,
}
use neo_nect_server.Error.{Result, ok, err}
use neo_nect_server.Db.{QueueRow, Tables, World, statement}
use neo_nect_server.Db.Keeps.{
  Keeps, Keeps-statement, Keeps-pure, Keeps-raise, Keeps-bind, Keeps-if, Keeps-attempt, After,
  success, failure,
}
use neo_nect_server.Queue.{
  QueueConfig, Envelope, envelope_row, has_room, has_message, append_row, insert_envelope,
  select_message, existing_checked, enqueue_envelope, is_claimable, claim_item, update_state,
  acknowledge, cleanup,
}
use neo_nect_server.Queue.FanOut.{fan_out_rows, append_rows, fan_out_message}
use neo_nect_server.Queue.Claim.{nothing_left, claim_item-tables, claim_item-misses}
use neo_nect_server.Queue.Runs.{
  QueueCall, send_one, send_all, confirm, expire, reschedule, lock, after_call, after_calls,
}

-- The item has been given its id, and no row of it is due at the time.
record IsLocked (item k : ℕ) (t : Tables) : Type 0 where
  numbered : item ≤ t.last_queue_id
  held : count (is_claimable item k) t.delivery_queue ≡ 0

-- The calls set no time of the item that is as early as that.
abbrev pub KeepLater : ℕ → ℕ → List QueueCall → Type 0
KeepLater item k [] = Unit {0}
KeepLater item k (reschedule i _ next _ ∷ calls) =
    (((i == item) ≡ false) ⊎ (k < next)) × KeepLater item k calls
KeepLater item k (lock i next _ ∷ calls) =
    (((i == item) ≡ false) ⊎ (k < next)) × KeepLater item k calls
KeepLater item k (_ ∷ calls) = KeepLater item k calls

module _ (item k : ℕ) where
  append_row-IsLocked :
      (q : QueueRow) (t : Tables) → IsLocked item k t → IsLocked item k (append_row q t)
  unfolding count
  append_row-IsLocked q t l = record {
    numbered = omega (arith, l.numbered);
    held = ground (
      arith,
      l.numbered,
      l.held,
      count-append (is_claimable item k) t.delivery_queue
          (record q { id = t.last_queue_id + 1 } ∷ []),
    );
  }

  append_rows-IsLocked :
      (rows : List QueueRow) (t : Tables) → IsLocked item k t → IsLocked item k (append_rows rows t)
  unfolding append_rows
  append_rows-IsLocked [] t l = l
  append_rows-IsLocked (q ∷ rows) t l =
      append_rows-IsLocked rows (append_row q t) (append_row-IsLocked q t l)

  delete-IsLocked :
      (p : QueueRow → Bool) (t : Tables)
      → IsLocked item k t
      → IsLocked item k (record t { delivery_queue = delete p t.delivery_queue })
  delete-IsLocked p t l = record {
    numbered = l.numbered;
    held = omega (arith, l.held, count-delete-le (is_claimable item k) p t.delivery_queue);
  }

  -- A time written over is another item's, or a later one.
  held-update :
      (p : QueueRow → Bool) (f : QueueRow → QueueRow) (rows : List QueueRow)
      → ((q : QueueRow)
          → p q ≡ true
          → is_claimable item k (f q) ≡ true
          → is_claimable item k q ≡ true)
      → count (is_claimable item k) rows ≡ 0
      → count (is_claimable item k) (update p f rows) ≡ 0
  unfolding count update
  held-update p f [] apart h = refl
  held-update p f (q ∷ rows) apart h = ground (arith, apart q, held-update p f rows apart)

  insert_envelope-IsLocked :
      (cfg : QueueConfig) (row : QueueRow) (message_id : String) (t : Tables)
      → IsLocked item k t
      → After (IsLocked item k) (insert_envelope cfg row message_id t)
  unfolding insert_envelope
  insert_envelope-IsLocked cfg row message_id t l =
      elim (Bool-cases (has_room cfg row.device_id row.payload t.delivery_queue)) [
        | inr full ↦ rw full (success l)
        | inl room ↦ elim (Bool-cases (any (has_message message_id) t.delivery_queue)) [
          | inl known ↦ rw (room, known) (success l)
          | inr fresh ↦ rw (room, fresh) (success (append_row-IsLocked row t l))
        ]
      ]

  select_message-IsLocked :
      (m : String) (t : Tables) → IsLocked item k t → After (IsLocked item k) (select_message m t)
  unfolding select_message
  select_message-IsLocked m t l = elim (Option-cases (find (has_message m) t.delivery_queue)) [
    | inl missing ↦ rw (missing, select_message) failure
    | inr (q, found) ↦ rw (found, select_message) (success l)
  ]

  existing_checked-IsLocked :
      (e : Envelope) (r : Result QueueRow) → Keeps (IsLocked item k) (existing_checked e r)
  unfolding existing_checked
  existing_checked-IsLocked e (ok q) = Keeps-if _ _ _ (Keeps-pure tt) (Keeps-raise _)
  existing_checked-IsLocked e (err x) = Keeps-raise _

  enqueue_envelope-IsLocked :
      (cfg : QueueConfig) (now : ℕ) (e : Envelope) (ttl sequence : ℕ)
      → Keeps (IsLocked item k) (enqueue_envelope cfg now e ttl sequence)
  unfolding enqueue_envelope
  enqueue_envelope-IsLocked cfg now e ttl sequence = Keeps-if _ _ _ (Keeps-raise _) (
      Keeps-bind _ _
        (Keeps-statement _
          (insert_envelope-IsLocked cfg (envelope_row now e ttl sequence) e.message_id))
        λ affected. Keeps-if _ _ _ (Keeps-pure tt) (
          Keeps-bind _ _ (Keeps-attempt _ (Keeps-statement _ (select_message-IsLocked _)))
            (existing_checked-IsLocked e)))

  fan_out_message-IsLocked :
      (cfg : QueueConfig) (now : ℕ) (ds : List String) (payload : Bytes) (ttl : ℕ)
      → Keeps (IsLocked item k) (fan_out_message cfg now ds payload ttl)
  unfolding fan_out_message
  fan_out_message-IsLocked cfg now [] payload ttl = Keeps-pure tt
  fan_out_message-IsLocked cfg now (d ∷ ds) payload ttl =
      Keeps-bind _ _
        (Keeps-statement _ λ t l.
          success
            (append_rows-IsLocked (fan_out_rows cfg now (d ∷ ds) payload ttl t.delivery_queue) t l))
        (λ affected. Keeps-if _ _ _ (Keeps-raise _) (Keeps-pure tt))

  acknowledge-IsLocked : (d : String) (i : ℕ) → Keeps (IsLocked item k) (acknowledge d i)
  unfolding acknowledge
  acknowledge-IsLocked d i = Keeps-statement _ λ t l. success (delete-IsLocked _ t l)

  cleanup-IsLocked : (now : ℕ) → Keeps (IsLocked item k) (cleanup now)
  unfolding cleanup
  cleanup-IsLocked now = Keeps-statement _ λ t l. success (delete-IsLocked _ t l)

  update_state-IsLocked :
      (i retry_count next ack_deadline : ℕ)
      → ((i == item) ≡ false) ⊎ (k < next)
      → Keeps (IsLocked item k) (update_state i retry_count next ack_deadline)
  unfolding update_state
  update_state-IsLocked i retry_count next ack_deadline later = Keeps-statement _ λ t l.
      success (record {
        numbered = l.numbered;
        held = held-update _ _ t.delivery_queue (λ q h c. ground (arith, later)) l.held;
      })

  claim_item-IsLocked :
      (i next current : ℕ)
      → ((i == item) ≡ false) ⊎ (k < next)
      → Keeps (IsLocked item k) (claim_item i next current)
  unfolding claim_item
  claim_item-IsLocked i next current later = Keeps-statement _ λ t l. success (record {
    numbered = l.numbered;
    held = held-update _ _ t.delivery_queue (λ q h c. ground (arith, later)) l.held;
  })

  after_calls-IsLocked :
      (cfg : QueueConfig) (calls : List QueueCall) (w : World)
      → KeepLater item k calls
      → IsLocked item k w.tables
      → IsLocked item k (after_calls cfg calls w).tables
  unfolding after_calls after_call
  after_calls-IsLocked cfg [] w u l = l
  after_calls-IsLocked cfg (send_one now e ttl sequence ∷ calls) w u l =
      after_calls-IsLocked cfg calls _ u ((enqueue_envelope-IsLocked cfg now e ttl sequence).at w l)
  after_calls-IsLocked cfg (send_all now ds payload ttl ∷ calls) w u l =
      after_calls-IsLocked cfg calls _ u ((fan_out_message-IsLocked cfg now ds payload ttl).at w l)
  after_calls-IsLocked cfg (confirm d i ∷ calls) w u l =
      after_calls-IsLocked cfg calls _ u ((acknowledge-IsLocked d i).at w l)
  after_calls-IsLocked cfg (expire now ∷ calls) w u l =
      after_calls-IsLocked cfg calls _ u ((cleanup-IsLocked now).at w l)
  after_calls-IsLocked cfg (reschedule i retry_count next ack_deadline ∷ calls) w (later, u) l =
      after_calls-IsLocked cfg calls _ u
        ((update_state-IsLocked i retry_count next ack_deadline later).at w l)
  after_calls-IsLocked cfg (lock i next current ∷ calls) w (later, u) l =
      after_calls-IsLocked cfg calls _ u ((claim_item-IsLocked i next current later).at w l)

claim_item-last_queue_id :
    (item next k : ℕ) (w : World)
    → (claim_item item next k w).1.tables.last_queue_id ≡ w.tables.last_queue_id
unfolding claim_item statement
claim_item-last_queue_id item next k w = elim (Bool-cases (w.fails w.calls)) [
  | inl failed ↦ rw failed refl
  | inr answered ↦ rw answered refl
]

-- Of two workers that hold the same item, as they read it, at most one claims it: once a claim has
-- succeeded with a lock later than the time read, a second claim by the time read does not succeed,
-- whatever lock it asks for, whichever driver calls fail, and after any run of the operations of the
-- queue that the relay uses in which no call that sets a time of the item sets one as early as the time
-- read. The id of the item is one that the queue has given out.
pub claim_item_exclusive :
    (cfg : QueueConfig) (item next next' k : ℕ) (calls : List QueueCall) (w w' : World)
    → k < next
    → item ≤ w.tables.last_queue_id
    → (claim_item item next k w).0 ≡ ok true
    → KeepLater item k calls
    → w'.tables ≡ (after_calls cfg calls (claim_item item next k w).1).tables
    → (claim_item item next' k w').0 ≢ ok true
claim_item_exclusive cfg item next next' k calls w w' later given won keep same =
    let first : IsLocked item k (claim_item item next k w).1.tables = record {
      numbered = rw (claim_item-last_queue_id item next k w) given;
      held =
          rw (claim_item-tables item next k w won)
            (nothing_left item next k w.tables.delivery_queue later);
    } in
    let last = after_calls-IsLocked item k cfg calls (claim_item item next k w).1 keep first in
    claim_item-misses item next' k w' (rw same last.held)
