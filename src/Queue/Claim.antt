-- ===== src/Queue/Claim.antt =====
-- internal/infrastructure/persistence/delivery_queue_manager.go: `ClaimItem`, the lock that the
-- workers take on an item of the queue.
use neo_nect_server.Base.{
  ℕ, ◌<◌, ◌≡◌, ◌≢◌, refl, inl, inr, true, List, [], ◌∷◌, arith, nat_eq, count, update, Bool-cases,
}
use neo_nect_server.Error.{ok}
use neo_nect_server.Db.{QueueRow, World, statement}
use neo_nect_server.Queue.{is_claimable, claim_item}

-- The rows as the UPDATE leaves them.
abbrev pub claimed_rows : ℕ → ℕ → ℕ → List QueueRow → List QueueRow
claimed_rows item next k rows =
    update (is_claimable item k) (λ q. record q { next_retry = next }) rows

pub nothing_left :
    (item next k : ℕ) (rows : List QueueRow)
    → k < next
    → count (is_claimable item k) (claimed_rows item next k rows) ≡ 0
unfolding count update
nothing_left item next k [] h = refl
nothing_left item next k (q ∷ rows) h = ground (arith, nothing_left item next k rows)

pub claim_item-tables :
    (item next k : ℕ) (w : World)
    → (claim_item item next k w).0 ≡ ok true
    → (claim_item item next k w).1.tables.delivery_queue
      ≡ claimed_rows item next k w.tables.delivery_queue
unfolding claim_item statement
claim_item-tables item next k w h = elim (Bool-cases (w.fails w.calls)) [
  | inl failed ↦ ground arith
  | inr answered ↦ rw answered
]

pub claim_item-misses :
    (item next k : ℕ) (w : World)
    → count (is_claimable item k) w.tables.delivery_queue ≡ 0
    → (claim_item item next k w).0 ≢ ok true
unfolding claim_item statement
claim_item-misses item next k w none_left h = ground arith
