-- ===== src/Rate/Window/Refine.antt =====
-- `RateWindow` refines a list of times, oldest first: `prune` drops the expired prefix and
-- `record_event` appends within the limit, through every wrap and growth of the ring.
use native.Mathlib.Numerals.{add-one}
use native.Mathlib.Nat.{mod-lt, mod-eq_of_lt}
use neo_nect_server.Base.{
  ℕ, zero, suc, ◌+◌, ◌*◌, ◌%◌, ◌≤◌, ◌<◌, ◌≡◌, refl, ap, ◌∙◌, ◌⊎◌, inl, inr, Bool, List, [], ◌∷◌,
  ◌++◌, arith, ltb, leb, if◌then◌else◌, length, set, length-set, length-replicate, replicate,
  Bool-cases,
}
use neo_nect_server.Rate.Window.{
  RateWindow, fresh, prune_loop, prune, reserve, append_at, record_event,
}
use neo_nect_server.Rate.Window.Ring.{
  slice, slice_wrap, slice-set_tail, slice_grown, slice_none, length-slice, length-copy_loop,
}

-- The head is inside the buffer, and the buffer holds every live entry.
pub record IsValid (win : RateWindow) : Type 0 where
  pub fits : win.count ≤ length win.timestamps
  pub inside : (length win.timestamps ≡ 0) ⊎ (win.head < length win.timestamps)

-- The live entries, oldest first.
abbrev pub contents : RateWindow → List ℕ
contents win = slice win.timestamps win.head win.count

-- The list without its expired prefix.
abbrev pub drop_expired : ℕ → ℕ → List ℕ → List ℕ
drop_expired now window [] = []
drop_expired now window (t ∷ ts) =
    let rest = drop_expired now window ts in if ltb now (t + window) then t ∷ ts else rest

-- What the loop of `prune` leaves: a position inside the buffer, no more entries, and the list.
record Pruned (ts : List ℕ) (now window head count : ℕ) (r : ℕ × ℕ) : Type 0 where
  inside : r.0 < length ts
  fewer : r.1 ≤ count
  slice_eq : slice ts r.0 r.1 ≡ drop_expired now window (slice ts head count)

prune_loop-Pruned :
    (ts : List ℕ) (now window head count : ℕ)
    → head < length ts
    → Pruned ts now window head count (prune_loop ts now window head count)
unfolding prune_loop
prune_loop-Pruned ts now window head zero h = record {
  inside = h;
  fewer = omega arith;
  slice_eq = refl;
}
prune_loop-Pruned ts now window head (suc count) h = ground (
  arith,
  mod-eq_of_lt h,
  prune_loop-Pruned ts now window ((head + 1) % length ts) count (mod-lt (head + 1) (omega arith)),
  slice_wrap ts (head + 1) count,
)

prune_loop_none :
    (ts : List ℕ) (now window head count : ℕ)
    → count ≡ 0
    → prune_loop ts now window head count ≡ (head, count)
unfolding prune_loop
prune_loop_none ts now window head zero h = refl
prune_loop_none ts now window head (suc count) h = absurd (omega arith)

prune_ring :
    (win : RateWindow) (now window : ℕ)
    → win.count ≤ length win.timestamps
    → (length win.timestamps ≡ 0) ⊎ (win.head < length win.timestamps)
    → IsValid (prune win now window)
      × (contents (prune win now window) ≡ drop_expired now window (contents win))
unfolding prune
prune_ring win now window fits (inl e) = ground (
  arith,
  prune_loop_none win.timestamps now window win.head win.count,
  slice_none win.timestamps win.head win.count,
)
prune_ring win now window fits (inr h) =
    let p : Pruned win.timestamps now window win.head win.count
        (prune_loop win.timestamps now window win.head win.count) =
      prune_loop-Pruned win.timestamps now window win.head win.count h in
    (record { fits = omega arith; inside = inr p.inside }, p.slice_eq)

-- On a well-formed window, pruning drops exactly the expired prefix of the live entries and keeps the
-- window well-formed.
pub prune_refines :
    (win : RateWindow) (now window : ℕ)
    → IsValid win
    → IsValid (prune win now window)
      × (contents (prune win now window) ≡ drop_expired now window (contents win))
prune_refines win now window v = prune_ring win now window v.fits v.inside

-- Room for one more entry is made without losing or reordering any.
reserve_refines :
    (win : RateWindow) (limit : ℕ)
    → IsValid win
    → win.count < limit
    → ((reserve win limit).count ≡ win.count)
      × (win.count < length (reserve win limit).timestamps)
      × ((reserve win limit).head < length (reserve win limit).timestamps)
      × (contents (reserve win limit) ≡ contents win)
unfolding reserve
reserve_refines win limit v h = ground (
  arith,
  length-replicate {A = ℕ} 4 0,
  length-replicate {A = ℕ} limit 0,
  length-replicate {A = ℕ} (length win.timestamps * 2) 0,
  length-copy_loop win.timestamps win.head win.count 0 (replicate limit 0),
  length-copy_loop win.timestamps win.head win.count 0 (replicate (length win.timestamps * 2) 0),
  slice_grown win.timestamps win.head win.count (replicate limit 0),
  slice_grown win.timestamps win.head win.count (replicate (length win.timestamps * 2) 0),
  slice_none win.timestamps win.head win.count,
  slice_none (replicate limit 0) 0 win.count,
  slice_none (replicate 4 0) 0 win.count,
)

-- A write at the tail appends.
append_at_refines :
    (win : RateWindow) (now : ℕ)
    → win.count < length win.timestamps
    → win.head < length win.timestamps
    → IsValid (append_at win now) × (contents (append_at win now) ≡ contents win ++ (now ∷ []))
unfolding append_at
append_at_refines win now room inside = (
  record {
    fits = omega (arith, length-set win.timestamps tail now);
    inside = inr (omega (arith, length-set win.timestamps tail now));
  },
  ap (slice (set win.timestamps tail now) win.head) (add-one win.count)
      ∙ slice-set_tail win.timestamps win.head win.count now room,
)
  where
    tail : ℕ
    tail = (win.head + win.count) % length win.timestamps

-- On a well-formed window, recording admits exactly below the limit, appends the admitted event to the
-- live entries, changes them in no other way, and keeps the window well-formed.
pub record_refines :
    (win : RateWindow) (now limit : ℕ)
    → IsValid win
    → let admitted : Bool = ltb (length (contents win)) limit in
      IsValid (record_event win now limit).1
      × ((record_event win now limit).0 ≡ admitted)
      × (contents (record_event win now limit).1
          ≡ (if admitted then contents win ++ (now ∷ []) else contents win))
unfolding record_event
record_refines win now limit v = elim (Bool-cases (leb limit win.count)) [
  | inl full ↦ ground (arith, length-slice win.timestamps win.head win.count)
  | inr room ↦ ground (
    arith,
    reserve_refines win limit v,
    append_at_refines (reserve win limit) now,
    length-slice win.timestamps win.head win.count,
  )
]

pub fresh-IsValid : IsValid fresh
fresh-IsValid = record { fits = omega arith; inside = inl refl }
