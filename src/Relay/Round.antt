-- ===== src/Relay/Round.antt =====
-- internal/service/relay_service.go: the goroutines of a round of the scheduler, one after another.
use neo_nect_server.Base.{
  ℕ, ◌+◌, ◌<◌, ◌≤◌, ◌≡◌, refl, ◌∙◌, inl, inr, Bool, false, List, arith, ltb, ◌==◌, nat_eq, any,
  count, any-of-count, Bool-cases,
}
use neo_nect_server.Error.{Result, ok, err}
use neo_nect_server.Db.{QueueRow, Tables, World, pure, continue}
use neo_nect_server.Queue.{is_claimable, claim_item}
use neo_nect_server.Queue.Acceptance.{at_call}
use neo_nect_server.Relay.Worker.{Act, process, is_claimed, retry_count_at_claim}
use neo_nect_server.Relay.Attempt.{locked, settled, Outcome, missed, waits}
use neo_nect_server.Relay.Due.{
  is_due, IsReady, update-nothing, settled-not_due, settled-waits, settled-claimable,
}

-- What an attempt leaves of the queue, for the rows due at a time.
pub record Progress (now : ℕ) (item : QueueRow) (t t' : Tables) : Type 0 where
  pub not_due :
      (p : ℕ → Bool)
      → any (is_due p now) t.delivery_queue ≡ false
      → any (is_due p now) t'.delivery_queue ≡ false
  pub done :
      IsReady now t.delivery_queue item
      → any (is_due (λ i. i == item.id) now) t'.delivery_queue ≡ false
  pub ready :
      (other : QueueRow)
      → (other.id == item.id) ≡ false
      → IsReady now t.delivery_queue other
      → IsReady now t'.delivery_queue other

missed-Progress :
    (now : ℕ) (item : QueueRow) (t : Tables) (lock : ℕ)
    → count (is_claimable item.id item.next_retry) t.delivery_queue ≡ 0
    → Progress now item t (record t { delivery_queue = locked item lock t.delivery_queue })
missed-Progress now item t lock none_left = record {
  not_due = λ p h. same (is_due p now) ∙ h;
  done = λ r. elim r [
    | inl waiting ↦ absurd (ground (arith, any-of-count _ _ none_left))
    | inr h ↦ same (is_due (λ i. i == item.id) now) ∙ h
  ];
  ready = λ other apart r. elim r [
    | inl waiting ↦ inl (same (is_claimable other.id other.next_retry) ∙ waiting)
    | inr h ↦ inr (same (is_due (λ i. i == other.id) now) ∙ h)
  ];
}
  where
    same :
        (g : QueueRow → Bool) → any g (locked item lock t.delivery_queue) ≡ any g t.delivery_queue
    same g = update-nothing g _ _ t.delivery_queue none_left

waits-Progress :
    (now : ℕ) (item : QueueRow) (t : Tables) (lock retry next ack : ℕ)
    → now < next
    → Progress now item t
        (record t { delivery_queue = settled item lock retry next ack t.delivery_queue })
waits-Progress now item t lock retry next ack later = record {
  not_due = λ p. settled-not_due p now item lock retry next ack t.delivery_queue later;
  done = λ _. settled-waits now item lock retry next ack t.delivery_queue later;
  ready = λ other apart r. elim r [
    | inl waiting ↦
        inl (settled-claimable other item lock retry next ack t.delivery_queue apart waiting)
    | inr h ↦
        inr (
          settled-not_due (λ i. i == other.id) now item lock retry next ack t.delivery_queue later
            h)
  ];
}

pub Outcome-Progress :
    (P : World → Type 0) (now at : ℕ) (item : QueueRow) (t : Tables) (w : World)
    → now ≤ at
    → Outcome at item t w
    → ((t' : Tables) (n : ℕ) → Progress now item t t' → P (at_call t' n))
    → P w
Outcome-Progress P now at item t w since (missed n lock none_left) k =
    k _ n (missed-Progress now item t lock none_left)
Outcome-Progress P now at item t w since (waits n lock retry next ack later) k =
    k _ n (waits-Progress now item t lock retry next ack (omega (arith, since, later)))

pub process-returns :
    (deliver : QueueRow → Bool) (has_push : Bool) (now : ℕ) (item : QueueRow) (w : World)
    → (acts : List Act) × ((process deliver has_push now item w).0 ≡ ok acts)
unfolding process
process-returns deliver has_push now item w =
    elim (Bool-cases (is_claimed (claim_item item.id (now + 120) item.next_retry w).0)) [
      | inr lost ↦ rw lost (_, refl)
      | inl claimed ↦ elim (Bool-cases (ltb 20 (retry_count_at_claim item))) [
        | inl spent ↦ rw (claimed, spent) (_, refl)
        | inr more ↦ elim (Bool-cases (deliver item)) [
          | inl sent ↦ rw (claimed, more, sent) (_, refl)
          | inr unsent ↦ rw (claimed, more, unsent) (_, refl)
        ]
      ]
    ]

pub continue-world :
    {A B : Type 0} (r : Result A) (f : A → B) (w : World) → (continue r (λ a. pure (f a)) w).1 ≡ w
continue-world (ok a) f w = refl
continue-world (err e) f w = refl
