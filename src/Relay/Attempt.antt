-- ===== src/Relay/Attempt.antt =====
-- internal/service/relay_service.go: what an attempt to deliver an item makes of the queue.
use neo_nect_server.Base.{
  ℕ, ◌<◌, ◌≡◌, inl, inr, Bool, List, arith, ltb, ◌==◌, nat_eq, count, update, Bool-cases,
}
use neo_nect_server.Db.{QueueRow, Tables, World, statement}
use neo_nect_server.Queue.{is_claimable, claim_item, update_state}
use neo_nect_server.Queue.Acceptance.{at_call}
use neo_nect_server.Relay.Worker.{later, is_claimed, retry_count_at_claim, process}
use neo_nect_server.Relay.Backoff.{backoff_exact}

-- The rows of the queue after the claim of an item, and after the worker wrote its state.
abbrev pub locked : QueueRow → ℕ → List QueueRow → List QueueRow
locked item lock rows =
    update (is_claimable item.id item.next_retry) (λ q. record q { next_retry = lock }) rows

abbrev pub settled : QueueRow → ℕ → ℕ → ℕ → ℕ → List QueueRow → List QueueRow
settled item lock retry next ack rows =
    update (λ q. q.id == item.id)
      (λ q. record q { retry_count = retry; next_retry = next; ack_deadline = ack })
      (locked item lock rows)

-- How an attempt at a time ends on a driver that does not fail: no row was there to claim, or the
-- item waits for a later time.
pub data Outcome (now : ℕ) (item : QueueRow) (t : Tables) : World → Type 0 where
  missed :
      (n lock : ℕ)
      → count (is_claimable item.id item.next_retry) t.delivery_queue ≡ 0
      → Outcome now item t
          (at_call (record t { delivery_queue = locked item lock t.delivery_queue }) n)
  waits :
      (n lock retry next ack : ℕ)
      → now < next
      → Outcome now item t (
          at_call
            (record t { delivery_queue = settled item lock retry next ack t.delivery_queue })
            n)

pub process-Outcome :
    (deliver : QueueRow → Bool) (has_push : Bool) (now : ℕ) (item : QueueRow) (t : Tables) (n : ℕ)
    → Outcome now item t (process deliver has_push now item (at_call t n)).1
unfolding process claim_item update_state statement is_claimed later
process-Outcome deliver has_push now item t n =
    elim (Bool-cases (count (is_claimable item.id item.next_retry) t.delivery_queue == 0)) [
      | inl none_left ↦ rw none_left (missed _ _ (ground arith))
      | inr claimed ↦ elim (Bool-cases (ltb 20 (retry_count_at_claim item))) [
        | inl spent ↦ rw (claimed, spent) (waits _ _ _ _ _ (omega arith))
        | inr more ↦ elim (Bool-cases (deliver item)) [
          | inl sent ↦ rw (claimed, more, sent) (waits _ _ _ _ _ (omega arith))
          | inr unsent ↦
              let (wait, least, _, _) = backoff_exact item more in
              rw (claimed, more, unsent, wait) (waits _ _ _ _ _ (omega (arith, least)))
        ]
      ]
    ]
