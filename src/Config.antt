-- ===== src/Config.antt =====
-- internal/config/config.go: the configuration that the server starts with. `lookup_env` is
-- `os.LookupEnv`, `atoi` is `strconv.Atoi` with none for an error, and `log.Fatalf`, which ends the
-- process, is none. Durations are the seconds that `LoadConfig` multiplies by `time.Second`.
pub mod Load
pub mod Steps
pub mod Safe
mod Tests
use neo_nect_server.Base.{
  Bool, true, false, Option, none, some, String, ◌==◌, string_eq, if◌then◌else◌, ℤ, ltz,
}

infixl 5 ◌>>=◌ ◌>>◌
abbrev pub ◌>>=◌ : {A B : Type 0} → Option A → (A → Option B) → Option B
none >>= f = none
some a >>= f = f a

abbrev pub ◌>>◌ : {A B : Type 0} → Option A → Option B → Option B
m >> n = m >>= λ _. n

-- `if b { log.Fatalf(…) }`
unfoldable pub fatal_if : Bool → Option (Unit {0})
fatal_if true = none
fatal_if false = some tt

unfoldable pub value_or : {A : Type 0} → A → Option A → A
value_or a none = a
value_or a (some b) = b

-- after the parse of `GetStrictEnvInt`
unfoldable pub checked_range : ℤ → ℤ → Option ℤ → Option ℤ
checked_range min max none = none
checked_range min max (some parsed) =
    if ltz parsed min then none else if ltz max parsed then none else some parsed

module _ (lookup_env : String → Option String) (atoi : String → Option ℤ) where
  unfoldable pub get_env_or_default : String → String → String
  unfolding value_or
  get_env_or_default key fallback = value_or fallback (lookup_env key)

  -- `os.Getenv`
  unfoldable pub get_env : String → String
  unfolding value_or
  get_env key = value_or "" (lookup_env key)

  unfoldable pub get_env_int : String → ℤ → ℤ
  unfolding value_or get_env
  get_env_int key default_value =
      if get_env key == "" then default_value else value_or default_value (atoi (get_env key))

  -- `GetStrictEnvInt`, and `GetStrictEnvInt64`, whose integers are the same
  unfoldable pub get_strict_env_int : String → ℤ → ℤ → ℤ → Option ℤ
  unfolding checked_range get_env
  get_strict_env_int key default_value min max =
      if get_env key == "" then some default_value else checked_range min max (atoi (get_env key))
