-- ===== src/Rate/Limiter/Shard.antt =====
-- One shard of a `TimeWindowLimiter`: its memory stays bounded, and each key's window keeps its
-- guarantee, also through a sweep that deletes the window of another key.
use mathlib.Core.Path.{subst}
use neo_nect_server.Base.{
  ℕ, ◌≤◌, ◌≡◌, refl, inl, inr, Option, none, some, List, [], ◌∷◌, arith, leb, ◌==◌, nat_eq,
  Comparable, if◌then◌else◌, length, Assoc, lookup, insert, Distinct, lookup-insert,
  insert-Distinct, length-insert_new, length-insert_old, length-append, Option-cases, Bool-cases,
}
use neo_nect_server.Rate.Window.{RateWindow, fresh, prune, record_event}
use neo_nect_server.Rate.Window.Refine.{
  IsValid, contents, drop_expired, prune_refines, record_refines, fresh-IsValid,
}
use neo_nect_server.Rate.Window.Sliding.{length-drop_expired-le, allow_event}
use neo_nect_server.Rate.Limiter.{sweep, admit_new, allow_in_shard}

-- A window that can be met in a limiter of this limit.
pub record IsWithin (limit : ℕ) (win : RateWindow) : Type 0 where
  pub valid : IsValid win
  pub few : length (contents win) ≤ limit

-- what a prune leaves of a map's entry
abbrev pub survivor : ℕ → ℕ → Option RateWindow → Option RateWindow
survivor now window none = none
survivor now window (some win) =
    if (prune win now window).count == 0 then none else some (prune win now window)

module _ {K : Type 0} ⦃e : Comparable K⦄ where
  pub lookup-sweep :
      (k : K) (now window : ℕ) (m : Assoc K RateWindow)
      → Distinct m
      → lookup k (sweep now window m) ≡ survivor now window (lookup k m)
  unfolding lookup sweep
  lookup-sweep k now window [] d = refl
  lookup-sweep k now window ((j, win) ∷ m) d =
      ground (arith, e.same_iff j k, lookup-sweep k now window m)

  sweep-Distinct :
      (now window : ℕ) (m : Assoc K RateWindow) → Distinct m → Distinct (sweep now window m)
  unfolding lookup sweep
  sweep-Distinct now window [] d = tt
  sweep-Distinct now window ((j, win) ∷ m) d =
      ground (arith, lookup-sweep j now window m, sweep-Distinct now window m)

  length-sweep-le :
      (now window : ℕ) (m : Assoc K RateWindow) → length (sweep now window m) ≤ length m
  unfolding sweep
  length-sweep-le now window [] = omega arith
  length-sweep-le now window ((j, win) ∷ m) = ground (arith, length-sweep-le now window m)

  -- At most `max_keys` windows, no key twice, and every window well-formed and within the limit.
  pub record IsBounded (max_keys limit : ℕ) (m : Assoc K RateWindow) : Type 0 where
    pub distinct : Distinct m
    pub bounded : length m ≤ max_keys
    pub windows : (k : K) (win : RateWindow) → lookup k m ≡ some win → IsWithin limit win

  -- the accepted events that the shard still remembers of a key
  abbrev pub remembered : K → Assoc K RateWindow → List ℕ
  remembered k m = elim (lookup k m) [ none ↦ [] | some win ↦ contents win ]

allow_event-IsWithin :
    (win : RateWindow) (limit now window : ℕ)
    → IsWithin limit win
    → IsWithin limit (allow_event win limit now window).1
unfolding allow_event
allow_event-IsWithin win limit now window v = ground (
  arith,
  prune_refines win now window v.valid,
  record_refines (prune win now window) now limit,
  length-append (drop_expired now window (contents win)) (now ∷ []),
  length-drop_expired-le now window (contents win),
)

fresh-IsWithin : (limit now : ℕ) → IsWithin limit (record_event fresh now limit).1
fresh-IsWithin limit now = ground (arith, fresh-IsValid, record_refines fresh now limit)

prune-IsWithin :
    (win : RateWindow) (limit now window : ℕ)
    → IsWithin limit win
    → IsWithin limit (prune win now window)
prune-IsWithin win limit now window v =
    ground (
      arith,
      prune_refines win now window v.valid,
      length-drop_expired-le now window (contents win),
    )

module _ {K : Type 0} ⦃e : Comparable K⦄ (max_keys limit : ℕ) where
  sweep-IsBounded :
      (now window : ℕ) (m : Assoc K RateWindow)
      → IsBounded max_keys limit m
      → IsBounded max_keys limit (sweep now window m)
  sweep-IsBounded now window m b = record {
    distinct = sweep-Distinct now window m b.distinct;
    bounded = omega (arith, b.bounded, length-sweep-le now window m);
    windows = λ k win h. elim (Option-cases (lookup k m)) [
      | inl missing ↦ cc (lookup-sweep k now window m b.distinct, missing, h)
      | inr (old, found) ↦ ground (
        arith,
        lookup-sweep k now window m b.distinct,
        prune-IsWithin old limit now window (b.windows k old found),
      )
    ];
  }

  insert-IsBounded :
      (key : K) (win : RateWindow) (m : Assoc K RateWindow)
      → IsBounded max_keys limit m
      → IsWithin limit win
      → length (insert key win m) ≤ max_keys
      → IsBounded max_keys limit (insert key win m)
  insert-IsBounded key win m b v room = record {
    distinct = insert-Distinct key win m b.distinct;
    bounded = room;
    windows = λ k w h. elim (Bool-cases (key == k)) [
      | inl same ↦
          let kept : win ≡ w = ground (arith, lookup-insert key k win m) in
          subst (IsWithin limit) kept v
      | inr other ↦ b.windows k w (ground (arith, lookup-insert key k win m))
    ];
  }

  admit_new-IsBounded :
      (key : K) (now : ℕ) (m : Assoc K RateWindow)
      → IsBounded max_keys limit m
      → lookup key m ≡ none
      → IsBounded max_keys limit (admit_new max_keys key limit now m).1
  unfolding admit_new
  admit_new-IsBounded key now m b new = elim (Bool-cases (leb max_keys (length m))) [
    | inl full ↦ rw (full, admit_new) b
    | inr room ↦
        rw (room, admit_new)
          (insert-IsBounded key (record_event fresh now limit).1 m b (fresh-IsWithin limit now)
            (ground (arith, length-insert_new key (record_event fresh now limit).1 m new)))
  ]

  unfoldable pub make_room : ℕ → ℕ → Assoc K RateWindow → Assoc K RateWindow
  make_room now window m = if leb max_keys (length m) then sweep now window m else m

  pub make_room-IsBounded :
      (now window : ℕ) (m : Assoc K RateWindow)
      → IsBounded max_keys limit m
      → IsBounded max_keys limit (make_room now window m)
  unfolding make_room
  make_room-IsBounded now window m b = elim (Bool-cases (leb max_keys (length m))) [
    | inl full ↦ rw (full, make_room) (sweep-IsBounded now window m b)
    | inr room ↦ rw (room, make_room) b
  ]

  pub lookup-make_room :
      (k : K) (now window : ℕ) (m : Assoc K RateWindow)
      → IsBounded max_keys limit m
      → lookup k m ≡ none
      → lookup k (make_room now window m) ≡ none
  unfolding make_room
  lookup-make_room k now window m b new = ground (arith, lookup-sweep k now window m b.distinct)

  -- Whatever the call, admitted or refused, a bounded shard stays bounded: in its number of keys and,
  -- for each key, in the number of events.
  pub allow_in_shard-IsBounded :
      (key : K) (now window : ℕ) (m : Assoc K RateWindow)
      → IsBounded max_keys limit m
      → IsBounded max_keys limit (allow_in_shard max_keys key limit now window m).1
  unfolding allow_in_shard make_room allow_event
  allow_in_shard-IsBounded key now window m b = elim (Option-cases (lookup key m)) [
    | inl new ↦
        rw (new, allow_in_shard)
          (admit_new-IsBounded key now (make_room now window m) (make_room-IsBounded now window m b)
            (lookup-make_room key now window m b new))
    | inr (win, old) ↦
        rw (old, allow_in_shard)
          (insert-IsBounded key (allow_event win limit now window).1 m b
            (allow_event-IsWithin win limit now window (b.windows key win old))
            (omega (
              arith,
              b.bounded,
              length-insert_old key (allow_event win limit now window).1 win m old,
            )))
  ]

  pub empty-IsBounded : IsBounded {K = K} max_keys limit []
  unfolding lookup
  empty-IsBounded = record { distinct = tt; bounded = omega arith; windows = λ k win h. cc }
