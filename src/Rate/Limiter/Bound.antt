-- ===== src/Rate/Limiter/Bound.antt =====
-- The sharded limiter as a whole: what it admits, for every key, in any window of time.
use native.Mathlib.Nat.{mod-lt}
use neo_nect_server.Base.{
  ℕ, ◌+◌, ◌%◌, ◌≤◌, ◌<◌, ◌≡◌, sym, ap, ◌∙◌, inl, inr, Bool, false, ◌&&◌, List, [], ◌∷◌, arith, ◌==◌,
  nat_eq, Comparable, if◌then◌else◌, length, get_or, set, count, Assoc, Bool-cases, nat_beq_iff,
  length-replicate, get_or-replicate, length-set, get_or-set,
}
use neo_nect_server.Rate.Window.{RateWindow}
use neo_nect_server.Rate.Window.Sliding.{is_active}
use neo_nect_server.Rate.Limiter.{TimeWindowLimiter, init, allow, allow_in_shard, shard_index}
use neo_nect_server.Rate.Limiter.Shard.{IsBounded, empty-IsBounded, allow_in_shard-IsBounded}
use neo_nect_server.Rate.Limiter.Load.{load, extra, load-le, load-allow_in_shard}

module _ {K : Type 0} ⦃e : Comparable K⦄ where
  abbrev pub shard : TimeWindowLimiter K → ℕ → Assoc K RateWindow
  shard l i = get_or l.shards i []

  -- Every shard is bounded, and there is a shard.
  pub record IsSound (limit : ℕ) (l : TimeWindowLimiter K) : Type 0 where
    pub sharded : 0 < length l.shards
    pub shards_ok : (i : ℕ) → IsBounded l.max_keys limit (shard l i)

  -- The calls in order, each a key and a time; the times at which `key` was admitted.
  pub admitted_times : TimeWindowLimiter K → ℕ → ℕ → K → List (K × ℕ) → List ℕ
  admitted_times l limit window key [] = []
  admitted_times l limit window key ((k, t) ∷ calls) =
      let (admitted, l') = allow l k limit t window in
      let rest = admitted_times l' limit window key calls in
      if admitted && k == key then t ∷ rest else rest

  abbrev pub CallsBefore : ℕ → List (K × ℕ) → Type 0
  CallsBefore now [] = Unit {0}
  CallsBefore now ((k, t) ∷ calls) = (t ≤ now) × CallsBefore now calls

  -- A call leaves the limiter sound: no shard grows past `max_keys`, no window past the limit.
  pub allow-IsSound :
      (limit : ℕ) (l : TimeWindowLimiter K) (k : K) (t window : ℕ)
      → IsSound limit l
      → IsSound limit (allow l k limit t window).1
  unfolding allow
  allow-IsSound limit l k t window s = record {
    sharded = omega (arith, s.sharded, length-set l.shards i m);
    shards_ok = λ j. elim (Bool-cases (i == j)) [
      | inl same ↦
          rw (get_or-set l.shards i j m [] (mod-lt (l.hasher k) s.sharded), same)
            (allow_in_shard-IsBounded l.max_keys limit k t window (shard l i) (s.shards_ok i))
      | inr other ↦
          rw (get_or-set l.shards i j m [] (mod-lt (l.hasher k) s.sharded), other) (s.shards_ok j)
    ];
  }
    where
      i : ℕ
      i = shard_index l k

      m : Assoc K RateWindow
      m = (allow_in_shard l.max_keys k limit t window (shard l i)).1

  -- the accepted events of a key that the limiter remembers and that count at `now`
  abbrev pub limiter_load : ℕ → ℕ → K → TimeWindowLimiter K → ℕ
  limiter_load now window key l = load now window key (shard l (shard_index l key))

  load-allow :
      (limit : ℕ) (l : TimeWindowLimiter K) (k key : K) (t window fin : ℕ)
      → IsSound limit l
      → t ≤ fin
      → limiter_load fin window key l
          + extra ((allow l k limit t window).0 && k == key) fin window t
        ≡ limiter_load fin window key (allow l k limit t window).1
  unfolding allow
  load-allow limit l k key t window fin s h =
      elim (Bool-cases (shard_index l k == shard_index l key)) [
        | inl same ↦
            ap (λ i. load fin window key (shard l i) + extra (call.0 && k == key) fin window t)
              (sym ((nat_beq_iff (shard_index l k) (shard_index l key)).0 same))
            ∙ load-allow_in_shard l.max_keys limit k key t window fin (shard l (shard_index l k))
                (s.shards_ok (shard_index l k)) h
            ∙ ap (load fin window key) (sym (written ∙ ap chosen same))
            ∙ moved
        | inr other ↦
            ap (λ b. limiter_load fin window key l + extra (call.0 && b) fin window t)
              (different other)
            ∙ ground arith
            ∙ ap (load fin window key) (sym (written ∙ ap chosen other))
            ∙ moved
      ]
    where
      call : Bool × Assoc K RateWindow
      call = allow_in_shard l.max_keys k limit t window (shard l (shard_index l k))

      chosen : Bool → Assoc K RateWindow
      chosen b = if b then call.1 else shard l (shard_index l key)

      written :
          get_or (set l.shards (shard_index l k) call.1) (shard_index l key) []
          ≡ chosen (shard_index l k == shard_index l key)
      written =
          get_or-set l.shards (shard_index l k) (shard_index l key) call.1 []
            (mod-lt (l.hasher k) s.sharded)

      after : List (Assoc K RateWindow)
      after = set l.shards (shard_index l k) call.1

      -- the number of shards, and with it the index of a key, stays
      moved :
          load fin window key (get_or after (shard_index l key) [])
          ≡ load fin window key (get_or after (l.hasher key % length after) [])
      moved =
          ap (λ n. load fin window key (get_or after (l.hasher key % n) []))
            (sym (length-set l.shards (shard_index l k) call.1))

      different : (shard_index l k == shard_index l key) ≡ false → (k == key) ≡ false
      different h = ground (arith, e.same_iff k key)

  admitted-le :
      (limit window : ℕ) (l : TimeWindowLimiter K) (key : K) (calls : List (K × ℕ)) (now : ℕ)
      → IsSound limit l
      → CallsBefore now calls
      → count (is_active now window) (admitted_times l limit window key calls)
          + limiter_load now window key l
        ≤ limit
  unfolding admitted_times count
  admitted-le limit window l key [] now s h = omega (
    arith,
    load-le l.max_keys limit key window now (shard l (shard_index l key))
        (s.shards_ok (shard_index l key)),
  )
  admitted-le limit window l key ((k, t) ∷ calls) now s h = ground (
    arith,
    load-allow limit l k key t window now s h.0,
    admitted-le limit window (allow l k limit t window).1 key calls now
        (allow-IsSound limit l k t window s) h.1,
  )

  pub init-IsSound :
      (limit num_shards max_keys : ℕ) (hasher : K → ℕ)
      → 0 < num_shards
      → IsSound limit (init num_shards max_keys hasher)
  unfolding init
  init-IsSound limit num_shards max_keys hasher h = record {
    sharded = omega (arith, length-replicate {A = Assoc K RateWindow} num_shards []);
    shards_ok = λ i.
        rw (get_or-replicate {A = Assoc K RateWindow} num_shards {a = []} i)
          (empty-IsBounded max_keys limit);
  }

  -- A limiter made by `NewTimeWindowLimiter` with at least one shard, then any calls of any keys
  -- up to a time `now`, all under one limit and one window: of the events of one key that it
  -- admitted, at most `limit` are younger than the window at `now`.
  pub allow-sliding_bound :
      (num_shards max_keys limit window now : ℕ) (hasher : K → ℕ) (key : K) (calls : List (K × ℕ))
      → 0 < num_shards
      → CallsBefore now calls
      → count
          (is_active now window)
          (admitted_times (init num_shards max_keys hasher) limit window key calls)
        ≤ limit
  allow-sliding_bound num_shards max_keys limit window now hasher key calls some_shard h = omega (
    arith,
    admitted-le limit window (init num_shards max_keys hasher) key calls now
        (init-IsSound limit num_shards max_keys hasher some_shard) h,
  )
