-- ===== src/Rate/Tests.antt =====
-- Runs of internal/api/rate_limiter.go and of the middleware of internal/api/handler_utils.go.
use neo_nect_server.Base.{
  ℕ, ◌≤◌, ◌≡◌, ◌↔◌, refl, inr, true, String, [], ◌∷◌, arith, ◌==◌, nat_eq, string_eq, count, lookup,
}
use neo_nect_server.Rate.Window.{RateWindow, record_event}
use neo_nect_server.Rate.Window.Refine.{IsValid, contents, record_refines}
use neo_nect_server.Rate.Window.Sliding.{is_active}
use neo_nect_server.Rate.Limiter
use neo_nect_server.Rate.Limiter.Bound.{admitted_times, allow-sliding_bound}
use neo_nect_server.Rate.Limiter.Shard.{IsBounded, empty-IsBounded, allow_in_shard-IsBounded}
use neo_nect_server.Rate.Gauge
use neo_nect_server.Rate.Gauge.Open.{gauge, IsSound, init-IsSound}
use neo_nect_server.Rate.Gauge.Traffic.{Traffic, serve as arrive, here, next, Reach-serving_bound}
use neo_nect_server.Rate.Requests.{
  Limits, RequestRateLimiter, too_many_connections, rate_limit_middleware,
}
use neo_nect_server.Rate.Requests.Balance.{middleware_balanced}

-- a ring of three slots, whose two live entries go round its end
abbrev wrapped : RateWindow
wrapped = record { timestamps = 8 ∷ 0 ∷ 5 ∷ []; head = 2; count = 2 }

wrapped-IsValid : IsValid wrapped
wrapped-IsValid = record { fits = omega arith; inside = inr (omega arith) }

record_refines_example :
    IsValid (record_event wrapped 9 4).1
    × ((record_event wrapped 9 4).0 ≡ true)
    × (contents (record_event wrapped 9 4).1 ≡ 5 ∷ 8 ∷ 9 ∷ [])
record_refines_example = record_refines wrapped 9 4 wrapped-IsValid

allow-sliding_bound_example :
    count
      (is_active 12 10)
      (admitted_times (Limiter.init 2 1 (λ k. k)) 1 10 7 ((7, 1) ∷ (9, 2) ∷ (7, 3) ∷ (7, 12) ∷ []))
    ≤ 1
allow-sliding_bound_example =
    allow-sliding_bound 2 1 1 10 12 (λ k. k) 7 ((7, 1) ∷ (9, 2) ∷ (7, 3) ∷ (7, 12) ∷ [])
      (omega arith) (omega arith, (omega arith, (omega arith, (omega arith, tt))))

allow_in_shard-IsBounded_example : IsBounded {K = ℕ} 1 2 (Limiter.allow_in_shard 1 7 2 5 10 []).1
allow_in_shard-IsBounded_example = allow_in_shard-IsBounded 1 2 7 5 10 [] (empty-IsBounded 1 2)

abbrev home : String
home = "192.0.2.1"

abbrev gauges : Gauge.GaugeLimiter String
gauges = Gauge.init 2 (λ _. 5)

gauges-IsSound : IsSound gauges
gauges-IsSound = init-IsSound 2 (λ _. 5) (omega arith)

abbrev idle : Traffic String
idle = record { limiter = gauges; serving = [] }

first_allowed : (Gauge.allow gauges home 1).0 ≡ true
unfolding Gauge.allow Gauge.init Gauge.allow_in_shard lookup
first_allowed = refl

Reach-serving_bound_example :
    (gauge (Gauge.allow gauges home 1).1 home ≡ count {A = String} (λ j. j == home) (home ∷ []))
    × (count {A = String} (λ j. j == home) (home ∷ []) ≤ 1)
Reach-serving_bound_example =
    Reach-serving_bound 1 2 (λ _. 5)
      (record { limiter = (Gauge.allow gauges home 1).1; serving = home ∷ [] }) home (omega arith)
      (next here (arrive home first_allowed))

abbrev limits : Limits
limits = record {
  max_conn_per_ip = 1;
  max_req_per_sec_ip = 2;
  max_msg_per_sec = 3;
  max_discovery_per_sec = 4;
  max_auth_per_sec_ip = 5;
}

abbrev handler : RequestRateLimiter → ℕ × RequestRateLimiter
handler rl = (3, rl)

abbrev server : RequestRateLimiter
server = record {
  connections = gauges;
  ip_req = Limiter.init 1 1 (λ _. 0);
  ip_auth = Limiter.init 1 1 (λ _. 0);
  usr_msg = Limiter.init 1 1 (λ _. 0);
  usr_disc = Limiter.init 1 1 (λ _. 0);
  limits = limits;
  rate_window = 10;
}

middleware_balanced_example :
    (gauge (rate_limit_middleware handler server home 5).1.connections home ≡ gauge gauges home)
    × (((rate_limit_middleware handler server home 5).0 ≡ too_many_connections)
        ↔ (1 ≤ gauge gauges home))
middleware_balanced_example =
    middleware_balanced handler server home home 5 gauges-IsSound (λ rl. refl)
