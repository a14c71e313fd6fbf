-- ===== src/Config/Safe.antt =====
-- internal/config/config.go: a configuration that loads is within its bounds.
use mathlib.Core.Path.{subst}
use neo_nect_server.Base.{
  ◌≡◌, refl, Bool, true, false, ◌&&◌, ◌||◌, Option, some, String, ◌==◌, string_eq, some-injective,
  unguarded, arith, ℤ, pos, negsuc, ltz, if◌then◌else◌,
}
use neo_nect_server.Config.{get_env_or_default}
use neo_nect_server.Config.Steps.{within, bind-step, fatal-step, strict-step}
use neo_nect_server.Config.Load.{
  Naming, Limits, DatabaseConfig, Timing, RateConfig, AppConfig, is_environment, load_naming,
  load_limits, load_database, load_timing, load_rates, load_config,
}

-- An envelope fits one of the two ways in, and the limits are positive.
pub record IsSafeLimits (l : Limits) : Type 0 where
  pub http : within (pos 1) (pos 1073741824) l.http_max_body_bytes ≡ true
  pub ws : within (pos 1) (pos 1073741824) l.ws_max_message_bytes ≡ true
  pub envelope : within (pos 1) (pos 1073741824) l.max_envelope_bytes ≡ true
  pub fits :
      (ltz l.http_max_body_bytes l.max_envelope_bytes
        && ltz l.ws_max_message_bytes l.max_envelope_bytes)
      ≡ false
  pub bytes : within (pos 1) (pos 1073741824) l.max_mailbox_bytes ≡ true
  pub messages : within (pos 1) (pos 1000000) l.max_mailbox_messages ≡ true
  pub sockets : within (pos 1) (pos 1000000) l.max_global_web_sockets ≡ true
  pub batch : within (pos 1) (pos 10000) l.delivery_batch_size ≡ true

-- No more connections rest than are open, and each setting of SQLite is in its range.
pub record IsSafeDatabase (d : DatabaseConfig) : Type 0 where
  pub open_conns : within (pos 1) (pos 1000) d.db_max_open_conns ≡ true
  pub idle_conns : within (pos 0) (pos 1000) d.db_max_idle_conns ≡ true
  pub rest : ltz d.db_max_open_conns d.db_max_idle_conns ≡ false
  pub lifetime : within (pos 0) (pos 86400) d.db_conn_max_lifetime ≡ true
  pub cache : within (negsuc 1999999) (pos 2000000) d.sqlite_cache_size ≡ true
  pub mmap : within (pos 0) (pos 1099511627776) d.sqlite_mmap_size_bytes ≡ true
  pub busy : within (pos 1) (pos 300000) d.sqlite_busy_timeout_ms ≡ true

-- A ping is sent before the wait for its pong is over.
pub record IsSafeTiming (t : Timing) : Type 0 where
  pub ping : within (pos 1) (pos 3600) t.ws_ping_period ≡ true
  pub pong : within (pos 2) (pos 3600) t.ws_pong_wait ≡ true
  pub in_time : ltz t.ws_ping_period t.ws_pong_wait ≡ true
  pub request : within (pos 1) (pos 3600) t.request_context_timeout ≡ true

-- Each rate limit is positive.
pub record IsSafeRates (r : RateConfig) : Type 0 where
  pub conn : within (pos 1) (pos 1000) r.max_conn_per_ip ≡ true
  pub req : within (pos 1) (pos 10000) r.max_req_per_sec_ip ≡ true
  pub msg : within (pos 1) (pos 10000) r.max_msg_per_sec ≡ true
  pub discovery : within (pos 1) (pos 100000) r.max_discovery_per_sec ≡ true
  pub auth : within (pos 1) (pos 1000) r.max_auth_per_sec_ip ≡ true

-- The environment is a known one, and only that of development debugs.
pub record IsSafeNaming (n : Naming) : Type 0 where
  pub known : is_environment n.environment ≡ true
  pub quiet : (n.debug && (n.environment == "beta" || n.environment == "production")) ≡ false

pub record IsSafe (cfg : AppConfig) : Type 0 where
  pub naming : IsSafeNaming cfg.naming
  pub limits : IsSafeLimits cfg.limits
  pub database : IsSafeDatabase cfg.database
  pub timing : IsSafeTiming cfg.timing
  pub rates : IsSafeRates cfg.rates

debug_off : (b c : Bool) → ((if b then false else c) && b) ≡ false
debug_off b c = ground arith

module _ (lookup_env : String → Option String) (atoi : String → Option ℤ) where
  load_limits-IsSafeLimits : (l : Limits) → load_limits lookup_env atoi ≡ some l → IsSafeLimits l
  unfolding load_limits ltz
  load_limits-IsSafeLimits l h = strict-step lookup_env atoi _ _ _ _ _ l refl h λ http e₁ h₁.
      strict-step lookup_env atoi _ _ _ _ _ l refl h₁ λ ws e₂ h₂.
        strict-step lookup_env atoi _ _ _ _ _ l refl h₂ λ envelope e₃ h₃.
          fatal-step _ _ l h₃ λ fits h₄.
            strict-step lookup_env atoi _ _ _ _ _ l refl h₄ λ bytes e₅ h₅.
              strict-step lookup_env atoi _ _ _ _ _ l refl h₅ λ messages e₆ h₆.
                strict-step lookup_env atoi _ _ _ _ _ l refl h₆ λ sockets e₇ h₇.
                  strict-step lookup_env atoi _ _ _ _ _ l refl h₇ λ batch e₈ h₈.
                    subst IsSafeLimits (some-injective h₈) (record {
                      http = e₁;
                      ws = e₂;
                      envelope = e₃;
                      fits = fits;
                      bytes = e₅;
                      messages = e₆;
                      sockets = e₇;
                      batch = e₈;
                    })

  load_database-IsSafeDatabase :
      (d : DatabaseConfig) → load_database lookup_env atoi ≡ some d → IsSafeDatabase d
  unfolding load_database ltz
  load_database-IsSafeDatabase d h =
      strict-step lookup_env atoi _ _ _ _ _ d refl h λ open_conns e₁ h₁.
        strict-step lookup_env atoi _ _ _ _ _ d refl h₁ λ idle e₂ h₂. fatal-step _ _ d h₂ λ rest h₃.
          strict-step lookup_env atoi _ _ _ _ _ d refl h₃ λ lifetime e₄ h₄.
            strict-step lookup_env atoi _ _ _ _ _ d refl h₄ λ busy e₅ h₅.
              strict-step lookup_env atoi _ _ _ _ _ d refl h₅ λ cache e₆ h₆.
                strict-step lookup_env atoi _ _ _ _ _ d refl h₆ λ mmap e₇ h₇.
                  subst IsSafeDatabase (some-injective h₇) (record {
                    open_conns = e₁;
                    idle_conns = e₂;
                    rest = rest;
                    lifetime = e₄;
                    busy = e₅;
                    cache = e₆;
                    mmap = e₇;
                  })

  load_timing-IsSafeTiming : (t : Timing) → load_timing lookup_env atoi ≡ some t → IsSafeTiming t
  unfolding load_timing ltz
  load_timing-IsSafeTiming t h = strict-step lookup_env atoi _ _ _ _ _ t refl h λ ping e₁ h₁.
      strict-step lookup_env atoi _ _ _ _ _ t refl h₁ λ pong e₂ h₂. fatal-step _ _ t h₂ λ early h₃.
        strict-step lookup_env atoi _ _ _ _ _ t refl h₃ λ request e₄ h₄.
          subst IsSafeTiming (some-injective h₄)
            (record { ping = e₁; pong = e₂; in_time = unguarded _ early; request = e₄ })

  load_rates-IsSafeRates : (r : RateConfig) → load_rates lookup_env atoi ≡ some r → IsSafeRates r
  unfolding load_rates ltz
  load_rates-IsSafeRates r h = strict-step lookup_env atoi _ _ _ _ _ r refl h λ conn e₁ h₁.
      strict-step lookup_env atoi _ _ _ _ _ r refl h₁ λ req e₂ h₂.
        strict-step lookup_env atoi _ _ _ _ _ r refl h₂ λ msg e₃ h₃.
          strict-step lookup_env atoi _ _ _ _ _ r refl h₃ λ discovery e₄ h₄.
            strict-step lookup_env atoi _ _ _ _ _ r refl h₄ λ auth e₅ h₅.
              subst IsSafeRates (some-injective h₅)
                (record { conn = e₁; req = e₂; msg = e₃; discovery = e₄; auth = e₅ })

  load_naming-IsSafeNaming :
      (to_lower : String → String) (equal_fold : String → String → Bool)
      (join : String → String → String) (root : String) (n : Naming)
      → load_naming lookup_env atoi to_lower equal_fold join root ≡ some n
      → IsSafeNaming n
  unfolding load_naming
  load_naming-IsSafeNaming to_lower equal_fold join root n h = fatal-step _ _ n h λ known h₁.
      subst IsSafeNaming (some-injective h₁) (record {
        known = unguarded _ known;
        quiet =
            debug_off
              (to_lower (get_env_or_default lookup_env atoi "NEONECT_ENV" "beta") == "beta"
                || to_lower (get_env_or_default lookup_env atoi "NEONECT_ENV" "beta")
                  == "production")
              (equal_fold (get_env_or_default lookup_env atoi "NEONECT_DEBUG" "") "true");
      })

-- A configuration that `LoadConfig` returns, whatever the environment, is within its bounds: the
-- environment is a known one and debugs only in development; each value that is read by
-- `GetStrictEnvInt` or `GetStrictEnvInt64` is in its range; an envelope fits one of the two ways in,
-- no more connections to the database rest than are open, and a ping is sent before the wait for its
-- pong is over.
pub load_config-IsSafe :
    (lookup_env : String → Option String) (atoi : String → Option ℤ) (to_lower : String → String)
    (equal_fold : String → String → Bool) (join : String → String → String) (storage_root : String)
    (cfg : AppConfig)
    → load_config lookup_env atoi to_lower equal_fold join storage_root ≡ some cfg
    → IsSafe cfg
unfolding load_config
load_config-IsSafe lookup_env atoi to_lower equal_fold join root cfg h =
    bind-step _ _ cfg h λ naming e₁ h₁. bind-step _ _ cfg h₁ λ limits e₂ h₂.
      bind-step _ _ cfg h₂ λ database e₃ h₃. bind-step _ _ cfg h₃ λ timing e₄ h₄.
        bind-step _ _ cfg h₄ λ rates e₅ h₅. subst IsSafe (some-injective h₅) (record {
          naming = load_naming-IsSafeNaming lookup_env atoi to_lower equal_fold join root naming e₁;
          limits = load_limits-IsSafeLimits lookup_env atoi limits e₂;
          database = load_database-IsSafeDatabase lookup_env atoi database e₃;
          timing = load_timing-IsSafeTiming lookup_env atoi timing e₄;
          rates = load_rates-IsSafeRates lookup_env atoi rates e₅;
        })
