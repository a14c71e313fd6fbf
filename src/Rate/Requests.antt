-- ===== src/Rate/Requests.antt =====
-- internal/api/rate_limiter.go, `RequestRateLimiter`, and its use by the middleware of
-- internal/api/handler_utils.go. User ids are numbers, addresses are texts. `nowFunc` is the
-- argument `now` of each call. Each limiter has its own mutexes, and a call touches one of them.
pub mod Balance
use neo_nect_server.Base.{ℕ, Bool, true, false, String, ◌==◌, nat_eq, string_eq, if◌then◌else◌}
use neo_nect_server.Rate.Limiter
use neo_nect_server.Rate.Limiter.{TimeWindowLimiter}
use neo_nect_server.Rate.Gauge
use neo_nect_server.Rate.Gauge.{GaugeLimiter}

-- the limits that `NewRateLimiter` reads from `config.AppConfig`
pub record Limits : Type 0 where
  pub max_conn_per_ip : ℕ
  pub max_req_per_sec_ip : ℕ
  pub max_msg_per_sec : ℕ
  pub max_discovery_per_sec : ℕ
  pub max_auth_per_sec_ip : ℕ

pub record RequestRateLimiter : Type 0 where
  pub connections : GaugeLimiter String
  pub ip_req : TimeWindowLimiter String
  pub ip_auth : TimeWindowLimiter String
  pub usr_msg : TimeWindowLimiter ℕ
  pub usr_disc : TimeWindowLimiter ℕ
  pub limits : Limits
  pub rate_window : ℕ

-- `time.Second`, in nanoseconds
abbrev pub second : ℕ
second = 1_000_000_000

-- `NewRateLimiter`
unfoldable pub init : (String → ℕ) → (ℕ → ℕ) → Limits → RequestRateLimiter
init string_hasher int64_hasher cfg = record {
  connections = Gauge.init 64 string_hasher;
  ip_req = Limiter.init 64 218 string_hasher;
  ip_auth = Limiter.init 64 484 string_hasher;
  usr_msg = Limiter.init 64 62 int64_hasher;
  usr_disc = Limiter.init 64 200 int64_hasher;
  limits = cfg;
  rate_window = second;
}

-- `SetLimits`
unfoldable pub set_limits : RequestRateLimiter → ℕ → ℕ → RequestRateLimiter
set_limits rl max_connections max_messages = record rl {
  limits = record (rl.limits) { max_conn_per_ip = max_connections; max_msg_per_sec = max_messages };
}

-- `SetIPLimits`
unfoldable pub set_ip_limits : RequestRateLimiter → ℕ → ℕ → RequestRateLimiter
set_ip_limits rl max_req max_auth = record rl {
  limits = record (rl.limits) { max_req_per_sec_ip = max_req; max_auth_per_sec_ip = max_auth };
}

unfoldable pub allow_connection : RequestRateLimiter → String → Bool × RequestRateLimiter
allow_connection rl ip =
    let (admitted, l) = Gauge.allow rl.connections ip rl.limits.max_conn_per_ip in
    (admitted, record rl { connections = l })

unfoldable pub release_connection : RequestRateLimiter → String → RequestRateLimiter
release_connection rl ip = record rl { connections = Gauge.release rl.connections ip }

unfoldable pub allow_ip_request : RequestRateLimiter → String → ℕ → Bool × RequestRateLimiter
allow_ip_request rl ip now =
    let (admitted, l) =
      Limiter.allow rl.ip_req ip rl.limits.max_req_per_sec_ip now rl.rate_window in
    (admitted, record rl { ip_req = l })

unfoldable pub allow_message : RequestRateLimiter → ℕ → ℕ → Bool × RequestRateLimiter
allow_message rl uid now =
    let (admitted, l) = Limiter.allow rl.usr_msg uid rl.limits.max_msg_per_sec now rl.rate_window in
    (admitted, record rl { usr_msg = l })

-- A configured limit of 0 stands for 10.
unfoldable pub discovery_limit : RequestRateLimiter → ℕ
discovery_limit rl =
    if rl.limits.max_discovery_per_sec == 0 then 10 else rl.limits.max_discovery_per_sec

unfoldable pub allow_discovery : RequestRateLimiter → ℕ → ℕ → Bool × RequestRateLimiter
allow_discovery rl uid now =
    let (admitted, l) = Limiter.allow rl.usr_disc uid (discovery_limit rl) now rl.rate_window in
    (admitted, record rl { usr_disc = l })

unfoldable pub allow_auth_attempt : RequestRateLimiter → String → ℕ → Bool × RequestRateLimiter
allow_auth_attempt rl ip now =
    let (admitted, l) =
      Limiter.allow rl.ip_auth ip rl.limits.max_auth_per_sec_ip now rl.rate_window in
    (admitted, record rl { ip_auth = l })

-- What the middleware answers itself, and what the handler behind it answers.
pub data Outcome {ℓ} (R : Type ℓ) : Type ℓ where
  too_many_connections too_many_requests : Outcome R
  served : R → Outcome R

-- `RateLimitMiddleware`: `next` is the handler behind it; the deferred release runs on every way
-- out after the connection was admitted.
unfoldable pub rate_limit_middleware :
    {R : Type 0}
    → (RequestRateLimiter → R × RequestRateLimiter)
    → RequestRateLimiter
    → String
    → ℕ
    → Outcome R × RequestRateLimiter
rate_limit_middleware next rl ip now =
    let (connected, rl₁) = allow_connection rl ip in
    if connected
    then (let (admitted, rl₂) = allow_ip_request rl₁ ip now in
        if admitted
        then (let (answer, rl₃) = next rl₂ in (served answer, release_connection rl₃ ip))
        else (too_many_requests, release_connection rl₂ ip))
    else (too_many_connections, rl₁)
