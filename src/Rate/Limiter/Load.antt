-- ===== src/Rate/Limiter/Load.antt =====
-- What a shard remembers of a key: every accepted event that is younger than the window.
use neo_nect_server.Base.{
  ℕ, ◌+◌, ◌≤◌, ◌≡◌, refl, inl, inr, Bool, ◌&&◌, none, List, [], ◌∷◌, arith, leb, ◌==◌, nat_eq,
  Comparable, if◌then◌else◌, length, Assoc, lookup, lookup-insert, count, count-append,
  Option-cases, Bool-cases,
}
use neo_nect_server.Rate.Window.{RateWindow, fresh, prune, record_event}
use neo_nect_server.Rate.Window.Ring.{length-slice}
use neo_nect_server.Rate.Window.Refine.{
  IsValid, contents, prune_refines, record_refines, fresh-IsValid,
}
use neo_nect_server.Rate.Window.Sliding.{count-le-length, is_active, active-drop_expired}
use neo_nect_server.Rate.Limiter.{sweep, admit_new, allow_in_shard}
use neo_nect_server.Rate.Limiter.Shard.{
  IsBounded, lookup-sweep, remembered, make_room, lookup-make_room,
}

-- the accepted events of a key in a shard that are younger than the window at `now`
abbrev pub load : {K : Type 0} ⦃e : Comparable K⦄ → ℕ → ℕ → K → Assoc K RateWindow → ℕ
load ⦃e⦄ now window k m = count (is_active now window) (remembered k m)

-- one more accepted event of the key, if it counts at `now`
abbrev pub extra : Bool → ℕ → ℕ → ℕ → ℕ
extra admitted now window t = if admitted && is_active now window t then 1 else 0

count-one : (p : ℕ → Bool) (t : ℕ) → count p (t ∷ []) ≡ (if p t then 1 else 0)
unfolding count
count-one p t = ground arith

count-empty : (p : ℕ → Bool) (ts : List ℕ) → length ts ≡ 0 → count p ts ≡ 0
unfolding count
count-empty p [] h = refl
count-empty p (t ∷ ts) h = absurd (omega arith)

-- Recording adds the event to the window's active ones when it admits, and nothing else.
load-record :
    (win : RateWindow) (limit t window fin : ℕ)
    → IsValid win
    → count (is_active fin window) (contents (record_event win t limit).1)
      ≡ count (is_active fin window) (contents win)
        + extra (record_event win t limit).0 fin window t
load-record win limit t window fin v = ground (
  arith,
  record_refines win t limit v,
  count-append (is_active fin window) (contents win) (t ∷ []),
  count-one (is_active fin window) t,
)

load-prune :
    (win : RateWindow) (t window fin : ℕ)
    → IsValid win
    → t ≤ fin
    → count (is_active fin window) (contents (prune win t window))
      ≡ count (is_active fin window) (contents win)
load-prune win t window fin v h =
    ground (arith, prune_refines win t window v, active-drop_expired fin t window (contents win))

module _ {K : Type 0} ⦃e : Comparable K⦄ (max_keys limit : ℕ) where
  load-sweep :
      (k : K) (t window fin : ℕ) (m : Assoc K RateWindow)
      → IsBounded max_keys limit m
      → t ≤ fin
      → load fin window k (sweep t window m) ≡ load fin window k m
  load-sweep k t window fin m b h = elim (Option-cases (lookup k m)) [
    | inl missing ↦ ground (arith, lookup-sweep k t window m b.distinct)
    | inr (win, found) ↦ ground (
      arith,
      lookup-sweep k t window m b.distinct,
      load-prune win t window fin (b.windows k win found).valid,
      length-slice (prune win t window).timestamps (prune win t window).head
          (prune win t window).count,
      count-empty (is_active fin window) (contents (prune win t window)),
    )
  ]

  load-make_room :
      (k : K) (t window fin : ℕ) (m : Assoc K RateWindow)
      → IsBounded max_keys limit m
      → t ≤ fin
      → load fin window k (make_room max_keys limit t window m) ≡ load fin window k m
  unfolding make_room
  load-make_room k t window fin m b h = elim (Bool-cases (leb max_keys (length m))) [
    | inl full ↦ rw (full, make_room) (load-sweep k t window fin m b h)
    | inr room ↦ rw (room, make_room) refl
  ]

  load-admit_new :
      (key k : K) (t window fin : ℕ) (m : Assoc K RateWindow)
      → lookup key m ≡ none
      → load fin window k m + extra ((admit_new max_keys key limit t m).0 && key == k) fin window t
        ≡ load fin window k (admit_new max_keys key limit t m).1
  unfolding admit_new count
  load-admit_new key k t window fin m new = ground (
    arith,
    e.same_iff key k,
    lookup-insert key k (record_event fresh t limit).1 m,
    load-record fresh limit t window fin fresh-IsValid,
  )

  -- The shard counts each admitted event of a key, and forgets none that is young enough.
  pub load-allow_in_shard :
      (key k : K) (t window fin : ℕ) (m : Assoc K RateWindow)
      → IsBounded max_keys limit m
      → t ≤ fin
      → load fin window k m
          + extra ((allow_in_shard max_keys key limit t window m).0 && key == k) fin window t
        ≡ load fin window k (allow_in_shard max_keys key limit t window m).1
  unfolding allow_in_shard make_room
  load-allow_in_shard key k t window fin m b h = elim (Option-cases (lookup key m)) [
    | inl new ↦
        rw (new, allow_in_shard)
          (omega (
            arith,
            load-make_room k t window fin m b h,
            load-admit_new key k t window fin (make_room max_keys limit t window m)
                (lookup-make_room max_keys limit key t window m b new),
          ))
    | inr (win, old) ↦
        rw (old, allow_in_shard)
          (ground (
            arith,
            e.same_iff key k,
            lookup-insert key k (record_event (prune win t window) t limit).1 m,
            load-record (prune win t window) limit t window fin,
            load-prune win t window fin,
            prune_refines win t window,
            b.windows key win old,
          ))
  ]

  pub load-le :
      (k : K) (window fin : ℕ) (m : Assoc K RateWindow)
      → IsBounded max_keys limit m
      → load fin window k m ≤ limit
  unfolding count
  load-le k window fin m b = elim (Option-cases (lookup k m)) [
    | inl missing ↦ ground arith
    | inr (win, found) ↦
        ground (arith, count-le-length (is_active fin window) (contents win), b.windows k win found)
  ]
