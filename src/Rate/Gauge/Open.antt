-- ===== src/Rate/Gauge/Open.antt =====
-- The gauge of a key is the number of its requests between `Allow` and `Release`.
use native.Mathlib.Nat.{mod-lt}
use neo_nect_server.Base.{
  ℕ, ◌+◌, ◌-◌, ◌%◌, ◌<◌, ◌≡◌, refl, ap, ◌∙◌, Bool, true, false, ◌&&◌, [], arith, ltb, ◌==◌, nat_eq,
  Comparable, if◌then◌else◌, length, get_or, set, replicate, Assoc, lookup, Distinct, lookup-insert,
  lookup-remove, insert-Distinct, remove-Distinct, length-set, length-replicate, get_or-replicate,
  get_or-set,
}
use neo_nect_server.Rate.Gauge.{
  GaugeLimiter, init, entry, allow, release, allow_in_shard, release_in_shard, shard_index,
}

module _ {K : Type 0} ⦃e : Comparable K⦄ where
  pub shard_gauge : K → Assoc K ℕ → ℕ
  shard_gauge key m = entry (lookup key m)

  shard_gauge-allow :
      (key k : K) (limit : ℕ) (m : Assoc K ℕ)
      → shard_gauge k (allow_in_shard key limit m).1 ≡ (
          if (allow_in_shard key limit m).0 && key == k
          then shard_gauge k m + 1
          else shard_gauge k m)
  unfolding shard_gauge allow_in_shard
  shard_gauge-allow key k limit m =
      ground (arith, e.same_iff key k, lookup-insert key k (entry (lookup key m) + 1) m)

  shard_gauge-release :
      (key k : K) (m : Assoc K ℕ)
      → Distinct m
      → shard_gauge k (release_in_shard key m)
        ≡ (if key == k then shard_gauge k m - 1 else shard_gauge k m)
  unfolding shard_gauge release_in_shard
  shard_gauge-release key k m d = ground (
    arith,
    e.same_iff key k,
    lookup-insert key k (entry (lookup key m) - 1) m,
    lookup-remove key k m d,
  )

  if_Distinct :
      (b : Bool) (m n : Assoc K ℕ) → Distinct m → Distinct n → Distinct (if b then m else n)
  if_Distinct true m n dm dn = dm
  if_Distinct false m n dm dn = dn

  shard-Distinct :
      (key : K) (limit : ℕ) (m : Assoc K ℕ)
      → Distinct m
      → Distinct (allow_in_shard key limit m).1 × Distinct (release_in_shard key m)
  unfolding allow_in_shard release_in_shard
  shard-Distinct key limit m d = ground (
    arith,
    insert-Distinct key (entry (lookup key m) + 1) m d,
    insert-Distinct key (entry (lookup key m) - 1) m d,
    remove-Distinct key m d,
  )

  -- the gauge of a key in the whole limiter
  pub gauge : GaugeLimiter K → K → ℕ
  gauge l key = shard_gauge key (get_or l.shards (shard_index l key) [])

  pub record IsSound (l : GaugeLimiter K) : Type 0 where
    pub sharded : 0 < length l.shards
    pub distinct : (i : ℕ) → Distinct (get_or l.shards i [])

  -- A shard is replaced by what `f` makes of it; `f` changes one key's gauge.
  gauge-at :
      (l : GaugeLimiter K) (key k : K) (m : Assoc K ℕ) (f : ℕ → ℕ)
      → 0 < length l.shards
      → ((j : K)
          → shard_gauge j m ≡ (
              if key == j
              then f (shard_gauge j (get_or l.shards (shard_index l key) []))
              else shard_gauge j (get_or l.shards (shard_index l key) [])))
      → gauge (record l { shards = set l.shards (shard_index l key) m }) k
        ≡ (if key == k then f (gauge l k) else gauge l k)
  unfolding gauge
  gauge-at l key k m f some_shard h =
      ap (λ n. shard_gauge k (get_or (set l.shards i m) (l.hasher k % n) []))
        (length-set l.shards i m)
      ∙ ap (shard_gauge k)
          (get_or-set l.shards i (shard_index l k) m [] (mod-lt (l.hasher key) some_shard))
      ∙ ground (arith, e.same_iff key k, h k)
    where
      i : ℕ
      i = shard_index l key

  pub allow-IsSound :
      (l : GaugeLimiter K) (key : K) (limit : ℕ) → IsSound l → IsSound (allow l key limit).1
  unfolding allow
  allow-IsSound l key limit s = record {
    sharded = omega (arith, s.sharded, length-set l.shards (shard_index l key) m);
    distinct = λ j.
        rw (get_or-set l.shards (shard_index l key) j m [] (mod-lt (l.hasher key) s.sharded)) (
          if_Distinct (shard_index l key == j) m _
            (shard-Distinct key limit _ (s.distinct (shard_index l key))).0 (s.distinct j));
  }
    where
      m : Assoc K ℕ
      m = (allow_in_shard key limit (get_or l.shards (shard_index l key) [])).1

  pub release-IsSound : (l : GaugeLimiter K) (key : K) → IsSound l → IsSound (release l key)
  unfolding release
  release-IsSound l key s = record {
    sharded = omega (arith, s.sharded, length-set l.shards (shard_index l key) m);
    distinct = λ j.
        rw (get_or-set l.shards (shard_index l key) j m [] (mod-lt (l.hasher key) s.sharded)) (
          if_Distinct (shard_index l key == j) m _
            (shard-Distinct key 0 _ (s.distinct (shard_index l key))).1 (s.distinct j));
  }
    where
      m : Assoc K ℕ
      m = release_in_shard key (get_or l.shards (shard_index l key) [])

  -- On a sound limiter, `Allow` admits exactly below the limit, and counts the admitted request under
  -- its key alone.
  pub gauge-allow :
      (l : GaugeLimiter K) (key k : K) (limit : ℕ)
      → IsSound l
      → ((allow l key limit).0 ≡ ltb (gauge l key) limit)
        × (gauge (allow l key limit).1 k
            ≡ (if (allow l key limit).0 && key == k then gauge l k + 1 else gauge l k))
  unfolding allow
  gauge-allow l key k limit s = (
    unfold gauge shard_gauge allow_in_shard in ground arith,
    gauge-at l key k r.1 (λ n. if r.0 then n + 1 else n) s.sharded
          (λ j. shard_gauge-allow key j limit m ∙ ground arith)
        ∙ ground arith,
  )
    where
      m : Assoc K ℕ
      m = get_or l.shards (shard_index l key) []

      r : Bool × Assoc K ℕ
      r = allow_in_shard key limit m

  -- On a sound limiter, `Release` takes one request off its key's gauge alone, never below 0.
  pub gauge-release :
      (l : GaugeLimiter K) (key k : K)
      → IsSound l
      → gauge (release l key) k ≡ (if key == k then gauge l k - 1 else gauge l k)
  unfolding release
  gauge-release l key k s =
      gauge-at l key k (release_in_shard key m) (λ n. n - 1) s.sharded
        (λ j. shard_gauge-release key j m (s.distinct (shard_index l key)))
    where
      m : Assoc K ℕ
      m = get_or l.shards (shard_index l key) []

  pub init-IsSound :
      (num_shards : ℕ) (hasher : K → ℕ) → 0 < num_shards → IsSound (init num_shards hasher)
  unfolding init
  init-IsSound num_shards hasher h = record {
    sharded = omega (arith, length-replicate {A = Assoc K ℕ} num_shards []);
    distinct = λ j. rw (get_or-replicate {A = Assoc K ℕ} num_shards {a = []} j) tt;
  }

  pub gauge-init : (num_shards : ℕ) (hasher : K → ℕ) (k : K) → gauge (init num_shards hasher) k ≡ 0
  unfolding init gauge shard_gauge lookup
  gauge-init num_shards hasher k =
      rw
        (get_or-replicate {A = Assoc K ℕ} num_shards {a = []}
          (hasher k % length (replicate {A = Assoc K ℕ} num_shards [])))
        refl
