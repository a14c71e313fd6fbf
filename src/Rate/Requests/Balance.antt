-- ===== src/Rate/Requests/Balance.antt =====
-- What the middleware leaves behind, and who is let through.
use neo_nect_server.Base.{ℕ, ◌≤◌, ◌↔◌, ◌≡◌, String, arith, string_eq}
use neo_nect_server.Rate.Gauge.Open.{gauge, IsSound, gauge-allow, gauge-release, allow-IsSound}
use neo_nect_server.Rate.Requests.{
  RequestRateLimiter, too_many_connections, allow_connection, release_connection, allow_ip_request,
  rate_limit_middleware,
}

-- a handler that leaves the connection gauges as it found them
abbrev pub KeepsGauges : {R : Type 0} → (RequestRateLimiter → R × RequestRateLimiter) → Type 0
KeepsGauges next = (rl : RequestRateLimiter) → (next rl).1.connections ≡ rl.connections

-- Behind the middleware of a sound limiter, with a handler that leaves the gauges alone, every request gives its
-- connection back: on all three ways out each address has the gauge that it had before. And the
-- request is refused for its connections exactly when its address has as many as are allowed.
pub middleware_balanced :
    {R : Type 0} (next : RequestRateLimiter → R × RequestRateLimiter) (rl : RequestRateLimiter)
    (ip other : String) (now : ℕ)
    → IsSound rl.connections
    → KeepsGauges next
    → (gauge (rate_limit_middleware next rl ip now).1.connections other
        ≡ gauge rl.connections other)
      × (((rate_limit_middleware next rl ip now).0 ≡ too_many_connections)
          ↔ (rl.limits.max_conn_per_ip ≤ gauge rl.connections ip))
unfolding rate_limit_middleware allow_connection release_connection allow_ip_request
middleware_balanced next rl ip other now s keeps = ground (
  arith,
  string_eq.same_iff ip other,
  gauge-allow rl.connections ip other rl.limits.max_conn_per_ip s,
  gauge-allow rl.connections ip ip rl.limits.max_conn_per_ip s,
  gauge-release (allow_connection rl ip).1.connections ip other
      (allow-IsSound rl.connections ip rl.limits.max_conn_per_ip s),
  keeps (allow_ip_request (allow_connection rl ip).1 ip now).1,
)
