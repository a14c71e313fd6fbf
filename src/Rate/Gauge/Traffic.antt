-- ===== src/Rate/Gauge/Traffic.antt =====
-- Requests that come and go through a `GaugeLimiter`, in any interleaving, the way
-- `RateLimitMiddleware` of internal/api/handler_utils.go brackets each request by
-- `AllowConnection` and a deferred `ReleaseConnection`.
use neo_nect_server.Base.{
  ℕ, ◌≤◌, ◌<◌, ◌≡◌, true, false, List, [], ◌∷◌, ◌++◌, arith, ◌==◌, Comparable, count, count-append,
}
use neo_nect_server.Rate.Gauge.{GaugeLimiter, init, allow, release}
use neo_nect_server.Rate.Gauge.Open.{
  gauge, IsSound, gauge-allow, gauge-release, allow-IsSound, release-IsSound, init-IsSound,
  gauge-init,
}

-- The limiter and the keys of the requests that are being served.
pub record Traffic (K : Type 0) : Type 0 where
  pub limiter : GaugeLimiter K
  pub serving : List K

module _ {K : Type 0} ⦃e : Comparable K⦄ (limit : ℕ) where
  -- A request arrives and is served, arrives and is refused, or ends.
  pub data Step (t : Traffic K) : Traffic K → Type 0 where
    serve :
        (k : K)
        → (allow t.limiter k limit).0 ≡ true
        → Step t (record { limiter = (allow t.limiter k limit).1; serving = k ∷ t.serving })
    refuse :
        (k : K)
        → (allow t.limiter k limit).0 ≡ false
        → Step t (record t { limiter = (allow t.limiter k limit).1 })
    finish :
        (k : K) (before after : List K)
        → t.serving ≡ before ++ (k ∷ after)
        → Step t (record { limiter = release t.limiter k; serving = before ++ after })

  pub data Reach (s : Traffic K) : Traffic K → Type 0 where
    here : Reach s s
    next : {t u : Traffic K} → Reach s t → Step t u → Reach s u

  -- The gauge of each key is the number of its requests that are being served.
  pub record IsExact (t : Traffic K) : Type 0 where
    pub sound : IsSound t.limiter
    pub exact : (k : K) → gauge t.limiter k ≡ count (λ j. j == k) t.serving
    pub within : (k : K) → count (λ j. j == k) t.serving ≤ limit

  Step-IsExact : {t u : Traffic K} → Step t u → IsExact t → IsExact u
  unfolding count
  Step-IsExact {t} (serve k h) x = record {
    sound = allow-IsSound t.limiter k limit x.sound;
    exact = λ j. ground (arith, x.exact j, gauge-allow t.limiter k j limit x.sound);
    within = λ j.
        ground
          (arith, x.exact j, x.within j, e.same_iff k j, gauge-allow t.limiter k j limit x.sound);
  }
  Step-IsExact {t} (refuse k h) x = record {
    sound = allow-IsSound t.limiter k limit x.sound;
    exact = λ j. ground (arith, x.exact j, gauge-allow t.limiter k j limit x.sound);
    within = x.within;
  }
  Step-IsExact {t} (finish k before after h) x = record {
    sound = release-IsSound t.limiter k x.sound;
    exact = λ j. ground (
      arith,
      x.exact j,
      gauge-release t.limiter k j x.sound,
      count-append (λ i. i == j) before (k ∷ after),
      count-append (λ i. i == j) before after,
    );
    within = λ j. ground (
      arith,
      x.within j,
      count-append (λ i. i == j) before (k ∷ after),
      count-append (λ i. i == j) before after,
    );
  }

  Reach-IsExact : {s t : Traffic K} → IsExact s → Reach s t → IsExact t
  Reach-IsExact x here = x
  Reach-IsExact x (next r st) = Step-IsExact st (Reach-IsExact x r)

  -- From a new limiter with at least one shard, however requests come and go: the gauge of each
  -- key is the number of its requests that are being served, and never more than the limit.
  pub Reach-serving_bound :
      (num_shards : ℕ) (hasher : K → ℕ) (t : Traffic K) (k : K)
      → 0 < num_shards
      → Reach (record { limiter = init num_shards hasher; serving = [] }) t
      → (gauge t.limiter k ≡ count (λ j. j == k) t.serving)
        × (count (λ j. j == k) t.serving ≤ limit)
  unfolding count
  Reach-serving_bound num_shards hasher t k h r = (x.exact k, x.within k)
    where
      x : IsExact t
      x =
          Reach-IsExact
            (record {
              sound = init-IsSound num_shards hasher h;
              exact = gauge-init num_shards hasher;
              within = λ j. omega arith;
            })
            r
