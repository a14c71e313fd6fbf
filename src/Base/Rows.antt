-- ===== src/Base/Rows.antt =====
-- What SQL statements do to the rows of a table: `any` is EXISTS, `find` the first row of a SELECT,
-- `filter` a WHERE, `count` a COUNT, `delete` a DELETE and `update` an UPDATE.
use Prim.Native.Nat.{ℕ, ◌+◌, ◌≤◌}
use mathlib.Core.Path.{◌≡◌, refl}
use mathlib.Core.Logic.{◌≢◌, ◌⊎◌}
use mathlib.Core.Bool.{Bool, true, false, ◌||◌}
use mathlib.Core.List.{List, [], ◌∷◌, ◌++◌}
use mathlib.Core.Option.{Option, none, some}
use native.Mathlib.Omega.{arith}
use neo_nect_server.Base.Tests.{if◌then◌else◌}

module _ {ℓ} {A : Type ℓ} where
  unfoldable pub any : (A → Bool) → List A → Bool
  any p [] = false
  any p (x ∷ xs) = p x || any p xs

  unfoldable pub find : (A → Bool) → List A → Option A
  find p [] = none
  find p (x ∷ xs) = if p x then some x else find p xs

  unfoldable pub filter : (A → Bool) → List A → List A
  filter p [] = []
  filter p (x ∷ xs) = let rest = filter p xs in if p x then x ∷ rest else rest

  unfoldable pub count : (A → Bool) → List A → ℕ
  count p [] = 0
  count p (x ∷ xs) = let rest = count p xs in if p x then rest + 1 else rest

  unfoldable pub delete : (A → Bool) → List A → List A
  delete p [] = []
  delete p (x ∷ xs) = let rest = delete p xs in if p x then rest else x ∷ rest

  unfoldable pub update : (A → Bool) → (A → A) → List A → List A
  update p f [] = []
  update p f (x ∷ xs) = let rest = update p f xs in if p x then f x ∷ rest else x ∷ rest

  pub any-append : (p : A → Bool) (xs ys : List A) → any p (xs ++ ys) ≡ (any p xs || any p ys)
  unfolding any
  any-append p [] ys = refl
  any-append p (x ∷ xs) ys = ground (arith, any-append p xs ys)

  pub find-append :
      (p : A → Bool) (xs ys : List A)
      → find p (xs ++ ys) ≡ (if any p xs then find p xs else find p ys)
  unfolding any find
  find-append p [] ys = refl
  find-append p (x ∷ xs) ys = ground (arith, find-append p xs ys)

  pub count-append : (p : A → Bool) (xs ys : List A) → count p (xs ++ ys) ≡ count p xs + count p ys
  unfolding count
  count-append p [] ys = omega arith
  count-append p (x ∷ xs) ys = ground (arith, count-append p xs ys)

  -- A search misses exactly when no row fits.
  pub find-none : (p : A → Bool) (xs : List A) → any p xs ≡ false → find p xs ≡ none
  unfolding any find
  find-none p [] h = refl
  find-none p (x ∷ xs) h = ground (arith, find-none p xs)

  pub find-some : (p : A → Bool) (xs : List A) → any p xs ≡ true → (a : A) × (find p xs ≡ some a)
  unfolding any find
  find-some p [] h = cc
  find-some p (x ∷ xs) h =
      elim (p x)
          as (λ b.
            (b || any p xs) ≡ true → (a : A) × ((if b then some x else find p xs) ≡ some a)) [
              | true ↦ λ _. (x, refl)
              | false ↦ λ h. find-some p xs h
            ]
        h

  pub find-holds : (p : A → Bool) (xs : List A) (a : A) → find p xs ≡ some a → p a ≡ true
  unfolding find
  find-holds p [] a h = cc
  find-holds p (x ∷ xs) a h = ground (arith, find-holds p xs a)

  pub any-delete_self : (p : A → Bool) (xs : List A) → any p (delete p xs) ≡ false
  unfolding any delete
  any-delete_self p [] = refl
  any-delete_self p (x ∷ xs) = ground (arith, any-delete_self p xs)

  pub any-count : (p : A → Bool) (xs : List A) → any p xs ≡ false → count p xs ≡ 0
  unfolding any count
  any-count p [] h = refl
  any-count p (x ∷ xs) h = ground (arith, any-count p xs)

  -- A delete that names other rows than the search changes nothing for the search.
  pub any-delete_ne :
      (p q : A → Bool) (xs : List A)
      → ((a : A) → p a ≡ true → q a ≡ false)
      → any p (delete q xs) ≡ any p xs
  unfolding any delete
  any-delete_ne p q [] h = refl
  any-delete_ne p q (x ∷ xs) h = ground (arith, h x, any-delete_ne p q xs h)

  pub find-delete_ne :
      (p q : A → Bool) (xs : List A)
      → ((a : A) → p a ≡ true → q a ≡ false)
      → find p (delete q xs) ≡ find p xs
  unfolding find delete
  find-delete_ne p q [] h = refl
  find-delete_ne p q (x ∷ xs) h = ground (arith, h x, find-delete_ne p q xs h)

  pub count-delete-le : (p q : A → Bool) (xs : List A) → count p (delete q xs) ≤ count p xs
  unfolding count delete
  count-delete-le p q [] = omega arith
  count-delete-le p q (x ∷ xs) = ground (arith, count-delete-le p q xs)

  -- A delete brings no row in.
  pub any-delete_none :
      (p q : A → Bool) (xs : List A) → any p xs ≡ false → any p (delete q xs) ≡ false
  unfolding any delete
  any-delete_none p q [] h = refl
  any-delete_none p q (x ∷ xs) h = ground (arith, any-delete_none p q xs)

  pub any-of-delete : (p q : A → Bool) (xs : List A) → any p (delete q xs) ≡ true → any p xs ≡ true
  any-of-delete p q xs h = ground (arith, any-delete_none p q xs)

  pub any-of-count : (p : A → Bool) (xs : List A) → count p xs ≡ 0 → any p xs ≡ false
  unfolding any count
  any-of-count p [] h = refl
  any-of-count p (x ∷ xs) h = ground (arith, any-of-count p xs)

  pub count-sub :
      (p q : A → Bool) (xs : List A) → ((a : A) → q a ≡ true → p a ≡ true) → count q xs ≤ count p xs
  unfolding count
  count-sub p q [] sub = omega arith
  count-sub p q (x ∷ xs) sub = ground (arith, sub x, count-sub p q xs sub)

  -- Where at most one row fits the search, and the delete hits one of those, none is left.
  pub any-delete_of_count :
      (p q : A → Bool) (xs : List A)
      → ((a : A) → q a ≡ true → p a ≡ true)
      → count p xs ≤ 1
      → count q xs ≢ 0
      → any p (delete q xs) ≡ false
  unfolding any count delete
  any-delete_of_count p q [] sub one hit = refl
  any-delete_of_count p q (x ∷ xs) sub one hit = ground (
    arith,
    sub x,
    any-delete_of_count p q xs sub,
    any-delete_none p q xs,
    any-of-count p xs,
    count-sub p q xs sub,
  )

  pub any-of-find :
      (p q : A → Bool) (xs : List A) (a : A) → find p xs ≡ some a → q a ≡ true → any q xs ≡ true
  unfolding any find
  any-of-find p q [] a h k = cc
  any-of-find p q (x ∷ xs) a h k = ground (arith, any-of-find p q xs a)

  pub count-of-find :
      (p q : A → Bool) (xs : List A) (a : A) → find p xs ≡ some a → q a ≡ true → count q xs ≢ 0
  unfolding count find
  count-of-find p q [] a h k = cc
  count-of-find p q (x ∷ xs) a h k = ground (arith, count-of-find p q xs a)

  pub count-update :
      (p q : A → Bool) (f : A → A) (xs : List A)
      → ((a : A) → p (f a) ≡ p a)
      → count p (update q f xs) ≡ count p xs
  unfolding count update
  count-update p q f [] h = refl
  count-update p q f (x ∷ xs) h = ground (arith, h x, count-update p q f xs h)

  pub find-snoc :
      (p : A → Bool) (xs : List A) (x : A)
      → find p xs ≡ none
      → p x ≡ true
      → find p (xs ++ (x ∷ [])) ≡ some x
  unfolding find
  find-snoc p [] x h k = rw k
  find-snoc p (y ∷ xs) x h k = ground (arith, find-snoc p xs x)

  -- An update that no search can see leaves the first row found where it is, updated or not.
  pub find-update :
      (p q : A → Bool) (f : A → A) (xs : List A) (a : A)
      → ((x : A) → p (f x) ≡ p x)
      → find p xs ≡ some a
      → (find p (update q f xs) ≡ some a) ⊎ (find p (update q f xs) ≡ some (f a))
  unfolding find update
  find-update p q f [] a h k = absurd cc
  find-update p q f (x ∷ xs) a h k = ground (arith, h x, find-update p q f xs a h)

  -- Rows that the update takes out of the search are not found after it.
  pub any-update_self :
      (q : A → Bool) (f : A → A) (xs : List A)
      → ((x : A) → q x ≡ true → q (f x) ≡ false)
      → any q (update q f xs) ≡ false
  unfolding any update
  any-update_self q f [] h = refl
  any-update_self q f (x ∷ xs) h = ground (arith, h x, any-update_self q f xs h)
