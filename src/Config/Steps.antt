-- ===== src/Config/Steps.antt =====
-- internal/config/config.go: the checks of `LoadConfig`, one after another.
use mathlib.Core.Path.{subst}
use neo_nect_server.Base.{
  ◌≡◌, refl, inl, inr, Bool, true, false, not, ◌&&◌, Option, none, some, String, ◌==◌, string_eq,
  Bool-cases, some-injective, ℤ, ltz,
}
use neo_nect_server.Config.{◌>>=◌, ◌>>◌, fatal_if, checked_range, get_env, get_strict_env_int}

abbrev pub within : ℤ → ℤ → ℤ → Bool
within min max v = not (ltz v min) && not (ltz max v)

checked_range-within :
    (min max : ℤ) (o : Option ℤ) (v : ℤ)
    → checked_range min max o ≡ some v
    → within min max v ≡ true
unfolding checked_range
checked_range-within min max none v = λ h. absurd cc
checked_range-within min max (some parsed) v = elim (Bool-cases (ltz parsed min)) [
  | inl below ↦ rw below (λ h. absurd cc)
  | inr above ↦ elim (Bool-cases (ltz max parsed)) [
    | inl over ↦ rw (above, over) (λ h. absurd cc)
    | inr under ↦
        rw (above, under)
          (λ h. subst (λ x. within min max x ≡ true) (some-injective h) (rw (above, under) refl))
  ]
]

-- What `GetStrictEnvInt` returns is within its range, if the default is.
pub strict-within :
    (lookup_env : String → Option String) (atoi : String → Option ℤ) (key : String)
    (d min max v : ℤ)
    → within min max d ≡ true
    → get_strict_env_int lookup_env atoi key d min max ≡ some v
    → within min max v ≡ true
unfolding get_strict_env_int
strict-within lookup_env atoi key d min max v safe =
    elim (Bool-cases (get_env lookup_env atoi key == "")) [
      | inl unset ↦ rw unset (λ h. subst (λ x. within min max x ≡ true) (some-injective h) safe)
      | inr set ↦ rw set (checked_range-within min max (atoi (get_env lookup_env atoi key)) v)
    ]

-- What each check says when the process goes on.
module _ {B P : Type 0} where
  pub bind-step :
      {A : Type 0} (m : Option A) (f : A → Option B) (b : B)
      → (m >>= f) ≡ some b
      → ((a : A) → m ≡ some a → f a ≡ some b → P)
      → P
  bind-step none f b h k = absurd cc
  bind-step (some a) f b h k = k a refl h

  pub fatal-step :
      (c : Bool) (n : Option B) (b : B)
      → (fatal_if c >> n) ≡ some b
      → (c ≡ false → n ≡ some b → P)
      → P
  unfolding fatal_if
  fatal-step true n b h k = absurd cc
  fatal-step false n b h k = k refl h

  pub strict-step :
      (lookup_env : String → Option String) (atoi : String → Option ℤ) (key : String)
      (d min max : ℤ) (f : ℤ → Option B) (b : B)
      → within min max d ≡ true
      → (get_strict_env_int lookup_env atoi key d min max >>= f) ≡ some b
      → ((v : ℤ) → within min max v ≡ true → f v ≡ some b → P)
      → P
  strict-step lookup_env atoi key d min max f b safe h k =
      bind-step (get_strict_env_int lookup_env atoi key d min max) f b h
        λ v e h'. k v (strict-within lookup_env atoi key d min max v safe e) h'
