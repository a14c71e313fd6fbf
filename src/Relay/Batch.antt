-- ===== src/Relay/Batch.antt =====
-- internal/service/relay_service.go: a round of the scheduler takes every row that is due, if they fit
-- in a batch.
use neo_nect_server.Base.{
  ℕ, zero, suc, ◌≤◌, ◌≡◌, refl, sym, ap, ◌∙◌, inl, inr, Bool, true, false, ◌||◌, List, [], ◌∷◌,
  arith, leb, ◌==◌, nat_eq, beq_self, any, count, filter, take, length, Bool-cases,
}
use neo_nect_server.Db.{QueueRow, Tables, statement}
use neo_nect_server.Queue.{QueueConfig, is_claimable, insert_by, order_by, get_due_items}
use neo_nect_server.Queue.Acceptance.{at_call}
use neo_nect_server.Relay.Scheduler.{dispatched, dispatch_due_messages}
use neo_nect_server.Relay.Due.{is_due}
use neo_nect_server.Relay.Drain.{beyond, AllReady, none_left, one_ready, process_all-drains}

any-insert_by :
    (g : QueueRow → Bool) (key : QueueRow → ℕ) (q : QueueRow) (rows : List QueueRow)
    → any g (insert_by key q rows) ≡ (g q || any g rows)
unfolding any insert_by
any-insert_by g key q [] = refl
any-insert_by g key q (p ∷ rows) = ground (arith, any-insert_by g key q rows)

any-order_by :
    (g : QueueRow → Bool) (key : QueueRow → ℕ) (rows : List QueueRow)
    → any g (order_by key rows) ≡ any g rows
unfolding any order_by
any-order_by g key [] = refl
any-order_by g key (q ∷ rows) =
    any-insert_by g key q (order_by key rows) ∙ ap (λ b. g q || b) (any-order_by g key rows)

length-insert_by :
    (key : QueueRow → ℕ) (q : QueueRow) (rows : List QueueRow)
    → length (insert_by key q rows) ≡ suc (length rows)
unfolding insert_by
length-insert_by key q [] = refl
length-insert_by key q (p ∷ rows) = ground (arith, length-insert_by key q rows)

length-order_by :
    (key : QueueRow → ℕ) (rows : List QueueRow) → length (order_by key rows) ≡ length rows
unfolding order_by
length-order_by key [] = refl
length-order_by key (q ∷ rows) =
    length-insert_by key q (order_by key rows) ∙ ap suc (length-order_by key rows)

length-filter : (p : QueueRow → Bool) (rows : List QueueRow) → length (filter p rows) ≡ count p rows
unfolding filter count
length-filter p [] = refl
length-filter p (q ∷ rows) = ground (arith, length-filter p rows)

take-all : (n : ℕ) (rows : List QueueRow) → length rows ≤ n → take n rows ≡ rows
take-all zero [] h = refl
take-all zero (q ∷ rows) h = absurd (omega (arith, h))
take-all (suc n) [] h = refl
take-all (suc n) (q ∷ rows) h = ap (λ xs. q ∷ xs) (take-all n rows (omega (arith, h)))

-- the rows that are due, in the order in which a round takes them
abbrev due_items : ℕ → List QueueRow → List QueueRow
due_items now rows = order_by (λ q. q.next_retry) (filter (λ q. leb q.next_retry now) rows)

any-filter :
    (g p : QueueRow → Bool) (rows : List QueueRow)
    → any g rows ≡ false
    → any g (filter p rows) ≡ false
unfolding any filter
any-filter g p [] h = refl
any-filter g p (q ∷ rows) h = ground (arith, any-filter g p rows)

-- A row that is due has its id among the items, if no test tells the items from the rows due.
covers :
    (now : ℕ) (items rows : List QueueRow)
    → ((g : QueueRow → Bool)
        → any g items ≡ false
        → any g (filter (λ q. leb q.next_retry now) rows) ≡ false)
    → any (is_due (beyond items) now) rows ≡ false
unfolding any filter
covers now items [] all = refl
covers now items (q ∷ rows) all =
    let here = all (λ it. q.id == it.id) in
    let rest = covers now items rows (λ g h. ground (arith, all g h)) in
    ground (arith, here, rest, beq_self q.id)

queued-AllReady :
    (now : ℕ) (items rows : List QueueRow)
    → ((g : QueueRow → Bool) → any g rows ≡ false → any g items ≡ false)
    → AllReady now rows items
unfolding any
queued-AllReady now [] rows among = none_left
queued-AllReady now (item ∷ items) rows among =
    one_ready {item = item}
      (elim (Bool-cases (any (is_claimable item.id item.next_retry) rows)) [
        | inl found ↦ inl found
        | inr missing ↦
            absurd (
              ground
                (arith, among (is_claimable item.id item.next_retry) missing, beq_self item.id))
      ])
      (queued-AllReady now items rows λ g h. ground (arith, among g h))

any-is_due :
    (now : ℕ) (rows : List QueueRow)
    → any (is_due (λ _. true) now) rows ≡ any (λ q. leb q.next_retry now) rows
unfolding any
any-is_due now [] = refl
any-is_due now (q ∷ rows) = ground (arith, any-is_due now rows)

-- On a driver that does not fail, after a round of the scheduler no row of the queue is due at the time
-- when it began, if the rows that were due fit in a batch: whether or not they can be delivered, in
-- whatever order the goroutines of the round run, one after another, and each no earlier than the round
-- began.
pub dispatch_due_messages_drains :
    (deliver : QueueRow → Bool) (has_push : Bool) (started : QueueRow → ℕ)
    (arrange : List QueueRow → List QueueRow) (cfg : QueueConfig) (now : ℕ) (t : Tables) (n : ℕ)
    → ((item : QueueRow) → now ≤ started item)
    → ((g : QueueRow → Bool) (items : List QueueRow) → any g (arrange items) ≡ any g items)
    → count (λ q. leb q.next_retry now) t.delivery_queue ≤ cfg.delivery_batch_size
    → any
        (λ q. leb q.next_retry now)
        (dispatch_due_messages deliver has_push started arrange cfg now
          (at_call t n)).1.tables.delivery_queue
      ≡ false
unfolding dispatch_due_messages dispatched get_due_items statement
dispatch_due_messages_drains deliver has_push started arrange cfg now t n since same fits =
    let due = filter (λ q. leb q.next_retry now) t.delivery_queue in
    let ordered = order_by (λ q. q.next_retry) due in
    let whole : take cfg.delivery_batch_size ordered ≡ ordered =
      take-all cfg.delivery_batch_size ordered (
        omega (
          arith,
          fits,
          length-order_by (λ q. q.next_retry) due,
          length-filter (λ q. leb q.next_retry now) t.delivery_queue,
        )) in
    let seen : (g : QueueRow → Bool) → any g (arrange ordered) ≡ any g due =
      λ g. same g ordered ∙ any-order_by g (λ q. q.next_retry) due in
    rw whole (
      sym (any-is_due now _)
      ∙ process_all-drains deliver has_push started now (arrange ordered) t (suc n) since
          (queued-AllReady now (arrange ordered) t.delivery_queue
            λ g h. seen g ∙ any-filter g (λ q. leb q.next_retry now) t.delivery_queue h)
          (covers now (arrange ordered) t.delivery_queue λ g h. sym (seen g) ∙ h))
