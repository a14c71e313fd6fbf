-- ===== src/Rate/Window/Ring.antt =====
-- The ring of a `RateWindow` as a list, oldest first.
use mathlib.Core.List.{append-nil, append_assoc}
use native.Mathlib.Numerals.{add-one}
use native.Mathlib.Nat.{add-zero, mod-eq_of_lt, mod-add-mod, mod-lt}
use neo_nect_server.Base.{
  ℕ, zero, suc, ◌+◌, ◌%◌, ◌≤◌, ◌<◌, ◌≡◌, refl, sym, ap, ◌∙◌, ◌≢◌, List, [], ◌∷◌, ◌++◌, arith,
  length, get_or, set, length-set, get_or-set_self, get_or-set_ne,
}
use neo_nect_server.Rate.Window.{copy_loop}

-- the `n` entries from position `i` on, which may run past the end of the buffer
abbrev pub slice : List ℕ → ℕ → ℕ → List ℕ
slice ts i zero = []
slice ts i (suc n) = get_or ts (i % length ts) 0 ∷ slice ts (i + 1) n

mod_step : (a b m : ℕ) → a % m ≡ b % m → (a + 1) % m ≡ (b + 1) % m
mod_step a b m h = sym (mod-add-mod a m 1) ∙ ap (λ r. (r + 1) % m) h ∙ mod-add-mod b m 1

mod_ne : (i k m : ℕ) → i < k → k < i + m → i % m ≢ k % m
mod_ne i k m h g e = grind arith

pub slice-congr :
    (ts : List ℕ) (a b n : ℕ) → a % length ts ≡ b % length ts → slice ts a n ≡ slice ts b n
slice-congr ts a b zero h = refl
slice-congr ts a b (suc n) h = cc (h, slice-congr ts (a + 1) (b + 1) n (mod_step a b (length ts) h))

-- A slice that starts after a wrap is the slice that starts before it.
pub slice_wrap : (ts : List ℕ) (i n : ℕ) → slice ts (i % length ts) n ≡ slice ts i n
slice_wrap ts i n = slice-congr ts (i % length ts) i n (grind arith)

pub length-slice : (ts : List ℕ) (i n : ℕ) → length (slice ts i n) ≡ n
length-slice ts i zero = refl
length-slice ts i (suc n) = ap suc (length-slice ts (i + 1) n)

pub slice_last :
    (ts : List ℕ) (i n : ℕ)
    → slice ts i (suc n) ≡ slice ts i n ++ (get_or ts ((i + n) % length ts) 0 ∷ [])
slice_last ts i zero = ap (λ k. get_or ts (k % length ts) 0 ∷ []) (omega arith)
slice_last ts i (suc n) =
    let e : i + 1 + n ≡ i + suc n = omega arith in
    ap (λ r. get_or ts (i % length ts) 0 ∷ r)
      (slice_last ts (i + 1) n
        ∙ ap (λ k. slice ts (i + 1) n ++ (get_or ts (k % length ts) 0 ∷ [])) e)

-- A write behind a slice leaves the slice.
pub slice-set_ne :
    (ts : List ℕ) (i n p v : ℕ)
    → i + n ≤ p
    → p < i + length ts
    → slice (set ts (p % length ts) v) i n ≡ slice ts i n
slice-set_ne ts i zero p v h g = refl
slice-set_ne ts i (suc n) p v h g = rw (length-set ts (p % length ts) v) (
    cc (
      get_or-set_ne ts (p % length ts) (i % length ts) v 0
          (λ e. mod_ne i p (length ts) (omega arith) g (sym e)),
      slice-set_ne ts (i + 1) n p v (omega arith) (omega arith),
    ))

-- A write at the tail appends.
pub slice-set_tail :
    (ts : List ℕ) (i n v : ℕ)
    → n < length ts
    → slice (set ts ((i + n) % length ts) v) i (suc n) ≡ slice ts i n ++ (v ∷ [])
slice-set_tail ts i n v h =
    slice_last (set ts ((i + n) % length ts) v) i n
    ∙ rw (
      slice-set_ne ts i n (i + n) v (omega arith) (omega arith),
      length-set ts ((i + n) % length ts) v,
      get_or-set_self ts ((i + n) % length ts) v 0 (mod-lt (i + n) (omega arith)),
    )

slice-set_front :
    (ts : List ℕ) (n v : ℕ)
    → n < length ts
    → slice (set ts n v) 0 (suc n) ≡ slice ts 0 n ++ (v ∷ [])
slice-set_front ts n v h =
    let e : (0 + n) % length ts ≡ n = mod-eq_of_lt (omega arith) ∙ omega arith in
    ap (λ k. slice (set ts k v) 0 (suc n)) (sym e) ∙ slice-set_tail ts 0 n v h

pub length-copy_loop :
    (ts : List ℕ) (head r i : ℕ) (new : List ℕ) → length (copy_loop ts head r i new) ≡ length new
unfolding copy_loop
length-copy_loop ts head zero i new = refl
length-copy_loop ts head (suc r) i new =
    length-copy_loop ts head r (i + 1) (set new i (get_or ts ((head + i) % length ts) 0))
    ∙ length-set new i (get_or ts ((head + i) % length ts) 0)

-- After the copy the new buffer begins with what it held up to `i` and then the ring's entries.
pub slice-copy_loop :
    (ts : List ℕ) (head r i : ℕ) (new : List ℕ)
    → i + r ≤ length new
    → slice (copy_loop ts head r i new) 0 (i + r) ≡ slice new 0 i ++ slice ts (head + i) r
unfolding copy_loop
slice-copy_loop ts head zero i new h =
    ap (slice new 0) (add-zero i) ∙ sym (append-nil (slice new 0 i))
slice-copy_loop ts head (suc r) i new h =
    let x : ℕ = get_or ts ((head + i) % length ts) 0 in
    let e : i + suc r ≡ i + 1 + r = omega arith in
    let g : head + (i + 1) ≡ head + i + 1 = omega arith in
    ap (slice (copy_loop ts head r (i + 1) (set new i x)) 0) e
    ∙ slice-copy_loop ts head r (i + 1) (set new i x) (omega (arith, length-set new i x))
    ∙ ap (λ l. l ++ slice ts (head + (i + 1)) r)
        (ap (slice (set new i x) 0) (add-one i) ∙ slice-set_front new i x (omega arith))
    ∙ append_assoc (slice new 0 i) (x ∷ []) (slice ts (head + (i + 1)) r)
    ∙ ap (λ k. slice new 0 i ++ (x ∷ slice ts k r)) g

-- The growth of the ring keeps its entries, now from position 0 on.
pub slice_grown :
    (ts : List ℕ) (head count : ℕ) (new : List ℕ)
    → count ≤ length new
    → slice (copy_loop ts head count 0 new) 0 count ≡ slice ts head count
slice_grown ts head count new h =
    let z : 0 + count ≡ count = omega arith in
    ap (slice (copy_loop ts head count 0 new) 0) (sym z)
    ∙ slice-copy_loop ts head count 0 new (omega arith)
    ∙ ap (λ k. slice ts k count) (add-zero head)

pub slice_none : (ts : List ℕ) (i n : ℕ) → n ≡ 0 → slice ts i n ≡ []
slice_none ts i zero h = refl
slice_none ts i (suc n) h = absurd (omega arith)
