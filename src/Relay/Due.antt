-- ===== src/Relay/Due.antt =====
-- internal/service/relay_service.go: which rows of the queue are due after an attempt.
use neo_nect_server.Base.{
  ℕ, ◌<◌, ◌≡◌, refl, ◌⊎◌, Bool, true, false, ◌&&◌, List, [], ◌∷◌, arith, leb, ◌==◌, nat_eq, any,
  count, update,
}
use neo_nect_server.Db.{QueueRow}
use neo_nect_server.Queue.{is_claimable}
use neo_nect_server.Relay.Attempt.{settled}

-- a row that is due and whose id fits
abbrev pub is_due : (ℕ → Bool) → ℕ → QueueRow → Bool
is_due p now q = leb q.next_retry now && p q.id

-- An item waits to be claimed as it was read, or no row of its id is due.
abbrev pub IsReady : ℕ → List QueueRow → QueueRow → Type 0
IsReady now rows item =
    (any (is_claimable item.id item.next_retry) rows ≡ true)
    ⊎ (any (is_due (λ i. i == item.id) now) rows ≡ false)

pub update-nothing :
    (g p : QueueRow → Bool) (f : QueueRow → QueueRow) (rows : List QueueRow)
    → count p rows ≡ 0
    → any g (update p f rows) ≡ any g rows
unfolding any update count
update-nothing g p f [] h = refl
update-nothing g p f (q ∷ rows) h = ground (arith, update-nothing g p f rows)

-- An attempt makes no row due.
pub settled-not_due :
    (p : ℕ → Bool) (now : ℕ) (item : QueueRow) (lock retry next ack : ℕ) (rows : List QueueRow)
    → now < next
    → any (is_due p now) rows ≡ false
    → any (is_due p now) (settled item lock retry next ack rows) ≡ false
unfolding any update
settled-not_due p now item lock retry next ack [] later h = refl
settled-not_due p now item lock retry next ack (q ∷ rows) later h =
    ground (arith, settled-not_due p now item lock retry next ack rows later)

pub settled-waits :
    (now : ℕ) (item : QueueRow) (lock retry next ack : ℕ) (rows : List QueueRow)
    → now < next
    → any (is_due (λ i. i == item.id) now) (settled item lock retry next ack rows) ≡ false
unfolding any update
settled-waits now item lock retry next ack [] later = refl
settled-waits now item lock retry next ack (q ∷ rows) later =
    ground (arith, settled-waits now item lock retry next ack rows later)

pub settled-claimable :
    (other : QueueRow) (item : QueueRow) (lock retry next ack : ℕ) (rows : List QueueRow)
    → (other.id == item.id) ≡ false
    → any (is_claimable other.id other.next_retry) rows ≡ true
    → any (is_claimable other.id other.next_retry) (settled item lock retry next ack rows) ≡ true
unfolding any update
settled-claimable other item lock retry next ack [] apart h = h
settled-claimable other item lock retry next ack (q ∷ rows) apart h =
    ground (arith, settled-claimable other item lock retry next ack rows apart)
