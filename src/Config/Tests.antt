-- ===== src/Config/Tests.antt =====
-- Runs of internal/config/config.go: the environment that sets nothing, and one out of range.
use neo_nect_server.Base.{
  ◌≡◌, refl, Bool, false, Option, none, some, String, ◌==◌, string_eq, ℤ, pos, negsuc, [], ltz,
}
use neo_nect_server.Config.{get_strict_env_int, fatal_if, get_env_or_default, get_env_int}
use neo_nect_server.Config.Load.{AppConfig, load_config, load_timing}
use neo_nect_server.Config.Safe.{IsSafe, load_config-IsSafe}

abbrev unset : String → Option String
unset key = none

abbrev no_number : String → Option ℤ
no_number s = none

abbrev two_seconds : String → Option ℤ
two_seconds s = some (pos 2)

-- every variable set
abbrev all_set : String → Option String
all_set key = some "2"

-- A wait of two seconds for the pong of a ping every two seconds is refused.
pong_too_early : load_timing all_set two_seconds ≡ none
unfolding load_timing ltz get_strict_env_int fatal_if
pong_too_early = refl

abbrev same_text : String → String
same_text s = s

abbrev same : String → String → Bool
same a b = a == b

abbrev below : String → String → String
below root name = name

-- what that environment gives
abbrev standard : AppConfig
standard = record {
  naming = record {
    environment = "beta";
    debug = false;
    allowed_origins = [];
    trusted_proxies = [];
    database_dir = "database";
    master_key_dir = "keys";
    bind_address = "0.0.0.0:0";
    integrity_seed = "integrity_pulse";
    database_name = "neonect_v1_beta";
    master_key_filename = "master.key";
    cert_filename = "cert.pem";
    key_filename = "key.pem";
  };
  limits = record {
    http_max_body_bytes = pos 4194304;
    ws_max_message_bytes = pos 4194304;
    max_envelope_bytes = pos 1048576;
    max_mailbox_bytes = pos 52428800;
    max_mailbox_messages = pos 1000;
    max_global_web_sockets = pos 10000;
    delivery_batch_size = pos 100;
  };
  database = record {
    db_max_open_conns = pos 10;
    db_max_idle_conns = pos 5;
    db_conn_max_lifetime = pos 3600;
    sqlite_busy_timeout_ms = pos 10000;
    sqlite_cache_size = negsuc 31999;
    sqlite_mmap_size_bytes = pos 268435456;
  };
  timing = record {
    read_timeout = pos 15;
    write_timeout = pos 15;
    idle_timeout = pos 60;
    request_context_timeout = pos 30;
    ws_ping_period = pos 30;
    ws_pong_wait = pos 45;
  };
  rates = record {
    max_conn_per_ip = pos 10;
    max_req_per_sec_ip = pos 50;
    max_msg_per_sec = pos 100;
    max_discovery_per_sec = pos 10;
    max_auth_per_sec_ip = pos 5;
  };
  max_devices_per_user = pos 10;
}

defaults : load_config unset no_number same_text same below "" ≡ some standard
unfolding load_config fatal_if get_env_or_default get_strict_env_int ltz get_env_int
defaults = refl

load_config-IsSafe_example : IsSafe standard
load_config-IsSafe_example =
    load_config-IsSafe unset no_number same_text same below "" standard defaults
