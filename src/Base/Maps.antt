-- ===== src/Base/Maps.antt =====
-- Go maps as association lists in which no key stands twice. Nothing here depends on the order.
use Prim.Native.Nat.{◌+◌}
use mathlib.Core.Path.{◌≡◌, refl}
use mathlib.Core.List.{List, [], ◌∷◌}
use mathlib.Core.Option.{Option, none, some}
use native.Mathlib.Omega.{arith}
use neo_nect_server.Base.Tests.{if◌then◌else◌}
use neo_nect_server.Base.Equality.{Comparable, ◌==◌}
use neo_nect_server.Base.Lists.{length}

abbrev pub Assoc {ℓ} : Type ℓ → Type ℓ → Type ℓ
Assoc K V = List (K × V)

module _ {ℓ} {K V : Type ℓ} ⦃e : Comparable K⦄ where
  unfoldable pub lookup : K → Assoc K V → Option V
  lookup key [] = none
  lookup key ((other, value) ∷ rest) = if other == key then some value else lookup key rest

  unfoldable pub remove : K → Assoc K V → Assoc K V
  remove key [] = []
  remove key ((other, value) ∷ rest) =
      if other == key then rest else (other, value) ∷ remove key rest

  unfoldable pub insert : K → V → Assoc K V → Assoc K V
  insert key new [] = (key, new) ∷ []
  insert key new ((other, value) ∷ rest) =
      if other == key then (key, new) ∷ rest else (other, value) ∷ insert key new rest

  abbrev pub Distinct : Assoc K V → Type ℓ
  Distinct [] = Unit
  Distinct ((k, v) ∷ m) = (lookup k m ≡ none) × Distinct m

  pub lookup-insert :
      (key other : K) (new : V) (entries : Assoc K V)
      → lookup other (insert key new entries)
        ≡ (if key == other then some new else lookup other entries)
  unfolding insert lookup
  lookup-insert key other new [] = refl
  lookup-insert key other new ((third, old) ∷ entries) = ground (
    arith,
    lookup-insert key other new entries,
    e.same_iff third key,
    e.same_iff third other,
    e.same_iff key other,
  )

  pub lookup-remove :
      (k j : K) (m : Assoc K V)
      → Distinct m
      → lookup j (remove k m) ≡ (if k == j then none else lookup j m)
  unfolding lookup remove
  lookup-remove k j [] d = ground arith
  lookup-remove k j ((i, w) ∷ m) d =
      ground (arith, e.same_iff k j, e.same_iff i k, e.same_iff i j, lookup-remove k j m)

  pub insert-Distinct : (k : K) (v : V) (m : Assoc K V) → Distinct m → Distinct (insert k v m)
  unfolding lookup insert
  insert-Distinct k v [] d = (refl, tt)
  insert-Distinct k v ((i, w) ∷ m) d =
      ground (arith, e.same_iff i k, e.same_iff k i, lookup-insert k i v m, insert-Distinct k v m)

  pub remove-Distinct : (k : K) (m : Assoc K V) → Distinct m → Distinct (remove k m)
  unfolding lookup remove
  remove-Distinct k [] d = tt
  remove-Distinct k ((i, w) ∷ m) d =
      ground (arith, e.same_iff i k, e.same_iff k i, lookup-remove k i m, remove-Distinct k m)

  -- A new key makes the map one longer.
  pub length-insert_new :
      (k : K) (v : V) (m : Assoc K V) → lookup k m ≡ none → length (insert k v m) ≡ length m + 1
  unfolding lookup insert
  length-insert_new k v [] h = omega arith
  length-insert_new k v ((i, w) ∷ m) h = ground (arith, length-insert_new k v m)

  pub length-insert_old :
      (k : K) (v w : V) (m : Assoc K V) → lookup k m ≡ some w → length (insert k v m) ≡ length m
  unfolding lookup insert
  length-insert_old k v u [] h = cc
  length-insert_old k v u ((i, w) ∷ m) h = ground (arith, length-insert_old k v u m)

  -- A key that is removed makes the map one shorter.
  pub length-remove :
      (k : K) (v : V) (m : Assoc K V) → lookup k m ≡ some v → length m ≡ length (remove k m) + 1
  unfolding lookup remove
  length-remove k v [] h = absurd cc
  length-remove k v ((i, w) ∷ m) h = ground (arith, length-remove k v m)
