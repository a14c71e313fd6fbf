-- ===== src/Rate/Gauge.antt =====
-- internal/api/rate_limiter.go: `GaugeLimiter`, the number of open requests of each key. The value
-- of a missing key is 0, as for a Go map. A shard's mutex makes each call one step.
pub mod Open
pub mod Traffic
use neo_nect_server.Base.{
  ℕ, zero, suc, ◌+◌, ◌-◌, ◌%◌, Bool, true, false, Option, none, some, List, [], leb, ltb, ◌==◌,
  nat_eq, Comparable, if◌then◌else◌, length, get_or, set, replicate, Assoc, lookup, insert, remove,
}

pub record GaugeLimiter (K : Type 0) : Type 0 where
  pub shards : List (Assoc K ℕ)
  pub hasher : K → ℕ

-- `shard.entries[key]`
abbrev pub entry : Option ℕ → ℕ
entry none = 0
entry (some n) = n

module _ {K : Type 0} ⦃e : Comparable K⦄ where
  -- `NewGaugeLimiter`
  unfoldable pub init : ℕ → (K → ℕ) → GaugeLimiter K
  init num_shards hasher = record { shards = replicate num_shards []; hasher = hasher }

  unfoldable pub allow_in_shard : K → ℕ → Assoc K ℕ → Bool × Assoc K ℕ
  allow_in_shard key limit entries =
      let n = entry (lookup key entries) in
      if leb limit n then (false, entries) else (true, insert key (n + 1) entries)

  unfoldable pub release_in_shard : K → Assoc K ℕ → Assoc K ℕ
  release_in_shard key entries =
      let n = entry (lookup key entries) in
      if ltb 0 n
      then (if n - 1 == 0 then remove key entries else insert key (n - 1) entries)
      else entries

  abbrev pub shard_index : GaugeLimiter K → K → ℕ
  shard_index l key = l.hasher key % length l.shards

  -- `Allow`
  unfoldable pub allow : GaugeLimiter K → K → ℕ → Bool × GaugeLimiter K
  allow l key limit =
      let i = shard_index l key in
      let (admitted, entries) = allow_in_shard key limit (get_or l.shards i []) in
      (admitted, record l { shards = set l.shards i entries })

  -- `Release`
  unfoldable pub release : GaugeLimiter K → K → GaugeLimiter K
  release l key =
      let i = shard_index l key in
      record l { shards = set l.shards i (release_in_shard key (get_or l.shards i [])) }
