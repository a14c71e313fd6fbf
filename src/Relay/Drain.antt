-- ===== src/Relay/Drain.antt =====
-- internal/service/relay_service.go: after a round of the scheduler nothing that fits it is due.
use mathlib.Core.Path.{subst}
use neo_nect_server.Base.{
  ℕ, ◌≤◌, ◌≡◌, refl, sym, inl, inr, Bool, true, false, not, List, [], ◌∷◌, arith, ◌==◌, nat_eq, any,
  Bool-cases,
}
use neo_nect_server.Db.{QueueRow, Tables, World}
use neo_nect_server.Queue.Acceptance.{at_call}
use neo_nect_server.Relay.Worker.{process}
use neo_nect_server.Relay.Scheduler.{process_all}
use neo_nect_server.Relay.Attempt.{process-Outcome}
use neo_nect_server.Relay.Due.{is_due, IsReady}
use neo_nect_server.Relay.Round.{Progress, Outcome-Progress, process-returns, continue-world}

-- the ids of other rows than some items
abbrev pub beyond : List QueueRow → ℕ → Bool
beyond items i = not (any (λ it. i == it.id) items)

pub data AllReady (now : ℕ) (rows : List QueueRow) : List QueueRow → Type 0 where
  none_left : AllReady now rows []
  one_ready :
      {item : QueueRow} {items : List QueueRow}
      → IsReady now rows item
      → AllReady now rows items
      → AllReady now rows (item ∷ items)

split :
    (now : ℕ) (item : QueueRow) (items rows : List QueueRow)
    → any (is_due (beyond (item ∷ items)) now) rows ≡ false
    → any (is_due (λ i. i == item.id) now) rows ≡ false
    → any (is_due (beyond items) now) rows ≡ false
unfolding any
split now item items [] h k = refl
split now item items (q ∷ rows) h k = ground (arith, split now item items rows)

module _ (now : ℕ) (item : QueueRow) (t t' : Tables) (p : Progress now item t t') where
  keep-IsReady :
      (other : QueueRow)
      → IsReady now t.delivery_queue item
      → IsReady now t.delivery_queue other
      → IsReady now t'.delivery_queue other
  keep-IsReady other r s = elim (Bool-cases (other.id == item.id)) [
    | inl same ↦ inr (
        subst (λ x. any (is_due (λ i. i == x) now) t'.delivery_queue ≡ false)
          (sym ((nat_eq.same_iff other.id item.id).0 same)) (p.done r))
    | inr apart ↦ p.ready other apart s
  ]

  keep-AllReady :
      (items : List QueueRow)
      → IsReady now t.delivery_queue item
      → AllReady now t.delivery_queue items
      → AllReady now t'.delivery_queue items
  keep-AllReady [] r none_left = none_left
  keep-AllReady (other ∷ items) r (one_ready s rest) =
      one_ready (keep-IsReady other r s) (keep-AllReady items r rest)

module _ (deliver : QueueRow → Bool) (has_push : Bool) (started : QueueRow → ℕ) where
  process_all-world :
      (item : QueueRow) (items : List QueueRow) (w : World)
      → (process_all deliver has_push started (item ∷ items) w).1
        ≡ (process_all deliver has_push started items
            (process deliver has_push (started item) item w).1).1
  unfolding process_all
  process_all-world item items w =
      let (acts, e) = process-returns deliver has_push (started item) item w in
      rw e (continue-world _ _ _)

  pub process_all-drains :
      (now : ℕ) (items : List QueueRow) (t : Tables) (n : ℕ)
      → ((item : QueueRow) → now ≤ started item)
      → AllReady now t.delivery_queue items
      → any (is_due (beyond items) now) t.delivery_queue ≡ false
      → any
          (is_due (λ _. true) now)
          (process_all deliver has_push started items (at_call t n)).1.tables.delivery_queue
        ≡ false
  unfolding process_all any
  process_all-drains now [] t n since none_left h = h
  process_all-drains now (item ∷ items) t n since (one_ready r rest) h =
      rw (process_all-world item items (at_call t n)) (
        Outcome-Progress
          (λ w.
            any (is_due (λ _. true) now)
              (process_all deliver has_push started items w).1.tables.delivery_queue
            ≡ false)
          now (started item) item t (process deliver has_push (started item) item (at_call t n)).1
          (since item) (process-Outcome deliver has_push (started item) item t n)
          λ t' n' p.
            process_all-drains now items t' n' since (keep-AllReady now item t t' p items r rest)
              (split now item items t'.delivery_queue (p.not_due _ h) (p.done r)))
