-- ===== src/Config/Load.antt =====
-- internal/config/config.go: `LoadConfig`, in the parts that its checks fall into. `to_lower`,
-- `equal_fold` and `join` are those of Go's library, and `storage_root` is what `GetStoragePath` finds.
use neo_nect_server.Base.{
  Bool, false, not, ◌&&◌, ◌||◌, Option, some, String, List, [], map, ◌==◌, string_eq, if◌then◌else◌,
  ℤ, pos, negsuc, ltz, trim_space,
}
use neo_nect_server.ClientIp.{split_commas}
use neo_nect_server.Config.{
  ◌>>=◌, ◌>>◌, fatal_if, get_env_or_default, get_env_int, get_strict_env_int,
}

pub record Naming : Type 0 where
  pub environment : String
  pub debug : Bool
  pub allowed_origins : List String
  pub trusted_proxies : List String
  pub database_dir : String
  pub master_key_dir : String
  pub bind_address : String
  pub integrity_seed : String
  pub database_name : String
  pub master_key_filename : String
  pub cert_filename : String
  pub key_filename : String

pub record Limits : Type 0 where
  pub http_max_body_bytes : ℤ
  pub ws_max_message_bytes : ℤ
  pub max_envelope_bytes : ℤ
  pub max_mailbox_bytes : ℤ
  pub max_mailbox_messages : ℤ
  pub max_global_web_sockets : ℤ
  pub delivery_batch_size : ℤ

pub record DatabaseConfig : Type 0 where
  pub db_max_open_conns : ℤ
  pub db_max_idle_conns : ℤ
  pub db_conn_max_lifetime : ℤ
  pub sqlite_busy_timeout_ms : ℤ
  pub sqlite_cache_size : ℤ
  pub sqlite_mmap_size_bytes : ℤ

pub record Timing : Type 0 where
  pub read_timeout : ℤ
  pub write_timeout : ℤ
  pub idle_timeout : ℤ
  pub request_context_timeout : ℤ
  pub ws_ping_period : ℤ
  pub ws_pong_wait : ℤ

pub record RateConfig : Type 0 where
  pub max_conn_per_ip : ℤ
  pub max_req_per_sec_ip : ℤ
  pub max_msg_per_sec : ℤ
  pub max_discovery_per_sec : ℤ
  pub max_auth_per_sec_ip : ℤ

-- `AppConfig`, in the parts above
pub record AppConfig : Type 0 where
  pub naming : Naming
  pub limits : Limits
  pub database : DatabaseConfig
  pub timing : Timing
  pub rates : RateConfig
  pub max_devices_per_user : ℤ

-- the `switch` on the environment
abbrev pub is_environment : String → Bool
is_environment env = env == "development" || env == "beta" || env == "production"

-- a list that is separated by commas, empty for the empty text
unfoldable pub comma_list : String → List String
comma_list s = if s == "" then [] else map trim_space (split_commas s)

unfoldable pub database_name_default : String → String
database_name_default env =
    if env == "development"
    then "neonect_v1_development"
    else if env == "production"
    then "neonect_v1_production"
    else "neonect_v1_beta"

module _ (lookup_env : String → Option String) (atoi : String → Option ℤ) where
  abbrev strict : String → ℤ → ℤ → ℤ → Option ℤ
  strict = get_strict_env_int lookup_env atoi

  abbrev text : String → String → String
  text = get_env_or_default lookup_env atoi

  unfoldable pub load_naming :
      (String → String)
      → (String → String → Bool)
      → (String → String → String)
      → String
      → Option Naming
  unfolding comma_list database_name_default
  load_naming to_lower equal_fold join storage_root =
      let env = to_lower (text "NEONECT_ENV" "beta") in
      (do
        fatal_if (not (is_environment env))
        some (record {
          environment = env;
          debug =
              if env == "beta" || env == "production"
              then false
              else equal_fold (text "NEONECT_DEBUG" "") "true";
          allowed_origins = comma_list (text "NEONECT_ALLOWED_ORIGINS" "");
          trusted_proxies = comma_list (text "NEONECT_TRUSTED_PROXIES" "");
          database_dir = text "NEONECT_DB_DIR" (join storage_root "database");
          master_key_dir = text "NEONECT_KEY_DIR" (join storage_root "keys");
          bind_address = text "NEONECT_BIND_ADDR" "0.0.0.0:0";
          integrity_seed = text "NEONECT_INTEGRITY_SEED" "integrity_pulse";
          database_name = text "NEONECT_DB_NAME" (database_name_default env);
          master_key_filename = text "NEONECT_MASTER_KEY_FILE" "master.key";
          cert_filename = text "NEONECT_CERT_FILE" "cert.pem";
          key_filename = text "NEONECT_KEY_FILE" "key.pem";
        }))

  unfoldable pub load_limits : Option Limits
  load_limits = do
    http ← strict "NEONECT_HTTP_MAX_BODY_BYTES" (pos 4194304) (pos 1) (pos 1073741824)
    ws ← strict "NEONECT_WS_MAX_MESSAGE_BYTES" (pos 4194304) (pos 1) (pos 1073741824)
    envelope ← strict "NEONECT_MAX_ENVELOPE_BYTES" (pos 1048576) (pos 1) (pos 1073741824)
    fatal_if (ltz http envelope && ltz ws envelope)
    bytes ← strict "NEONECT_MAX_MAILBOX_BYTES" (pos 52428800) (pos 1) (pos 1073741824)
    messages ← strict "NEONECT_MAX_MAILBOX_MESSAGES" (pos 1000) (pos 1) (pos 1000000)
    sockets ← strict "NEONECT_MAX_GLOBAL_WEBSOCKETS" (pos 10000) (pos 1) (pos 1000000)
    batch ← strict "NEONECT_DELIVERY_BATCH_SIZE" (pos 100) (pos 1) (pos 10000)
    some (record {
      http_max_body_bytes = http;
      ws_max_message_bytes = ws;
      max_envelope_bytes = envelope;
      max_mailbox_bytes = bytes;
      max_mailbox_messages = messages;
      max_global_web_sockets = sockets;
      delivery_batch_size = batch;
    })

  unfoldable pub load_database : Option DatabaseConfig
  load_database = do
    open_conns ← strict "NEONECT_DB_MAX_OPEN_CONNS" (pos 10) (pos 1) (pos 1000)
    idle ← strict "NEONECT_DB_MAX_IDLE_CONNS" (pos 5) (pos 0) (pos 1000)
    fatal_if (ltz open_conns idle)
    lifetime ← strict "NEONECT_DB_CONN_MAX_LIFETIME_SECONDS" (pos 3600) (pos 0) (pos 86400)
    busy ← strict "NEONECT_SQLITE_BUSY_TIMEOUT_MS" (pos 10000) (pos 1) (pos 300000)
    cache ← strict "NEONECT_SQLITE_CACHE_SIZE" (negsuc 31999) (negsuc 1999999) (pos 2000000)
    mmap ← strict "NEONECT_SQLITE_MMAP_SIZE_BYTES" (pos 268435456) (pos 0) (pos 1099511627776)
    some (record {
      db_max_open_conns = open_conns;
      db_max_idle_conns = idle;
      db_conn_max_lifetime = lifetime;
      sqlite_busy_timeout_ms = busy;
      sqlite_cache_size = cache;
      sqlite_mmap_size_bytes = mmap;
    })

  unfoldable pub load_timing : Option Timing
  load_timing = do
    ping ← strict "NEONECT_WS_PING_PERIOD_SECONDS" (pos 30) (pos 1) (pos 3600)
    pong ← strict "NEONECT_WS_PONG_WAIT_SECONDS" (pos 45) (pos 2) (pos 3600)
    fatal_if (not (ltz ping pong))
    request ← strict "NEONECT_REQUEST_CONTEXT_TIMEOUT_SECONDS" (pos 30) (pos 1) (pos 3600)
    some (record {
      read_timeout = get_env_int lookup_env atoi "NEONECT_READ_TIMEOUT" (pos 15);
      write_timeout = get_env_int lookup_env atoi "NEONECT_WRITE_TIMEOUT" (pos 15);
      idle_timeout = get_env_int lookup_env atoi "NEONECT_IDLE_TIMEOUT" (pos 60);
      request_context_timeout = request;
      ws_ping_period = ping;
      ws_pong_wait = pong;
    })

  unfoldable pub load_rates : Option RateConfig
  load_rates = do
    conn ← strict "NEONECT_MAX_CONN_PER_IP" (pos 10) (pos 1) (pos 1000)
    req ← strict "NEONECT_MAX_REQ_PER_SEC_IP" (pos 50) (pos 1) (pos 10000)
    msg ← strict "NEONECT_MAX_MSG_PER_SEC" (pos 100) (pos 1) (pos 10000)
    discovery ← strict "NEONECT_MAX_DISCOVERY_PER_SEC" (pos 10) (pos 1) (pos 100000)
    auth ← strict "NEONECT_MAX_AUTH_PER_SEC_IP" (pos 5) (pos 1) (pos 1000)
    some (record {
      max_conn_per_ip = conn;
      max_req_per_sec_ip = req;
      max_msg_per_sec = msg;
      max_discovery_per_sec = discovery;
      max_auth_per_sec_ip = auth;
    })

  unfoldable pub load_config :
      (String → String)
      → (String → String → Bool)
      → (String → String → String)
      → String
      → Option AppConfig
  unfolding load_naming load_limits load_database load_timing load_rates
  load_config to_lower equal_fold join storage_root = do
    naming ← load_naming to_lower equal_fold join storage_root
    limits ← load_limits
    database ← load_database
    timing ← load_timing
    rates ← load_rates
    some (record {
      naming = naming;
      limits = limits;
      database = database;
      timing = timing;
      rates = rates;
      max_devices_per_user = get_env_int lookup_env atoi "NEONECT_MAX_DEVICES" (pos 10);
    })
