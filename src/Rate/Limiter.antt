-- ===== src/Rate/Limiter.antt =====
-- internal/api/rate_limiter.go: `TimeWindowLimiter`, sharded by a hash of the key, with at most
-- `max_keys` entries in a shard. `maphash` is outside the repository: `hasher` is the hash under
-- the limiter's seed, any function. A shard's mutex makes each call one step.
pub mod Shard
pub mod Load
pub mod Bound
use neo_nect_server.Base.{
  ℕ, ◌%◌, Bool, true, false, Option, none, some, List, [], ◌∷◌, leb, ◌==◌, nat_eq, Comparable,
  if◌then◌else◌, length, get_or, set, replicate, Assoc, lookup, insert,
}
use neo_nect_server.Rate.Window.{RateWindow, fresh, prune, record_event}

pub record TimeWindowLimiter (K : Type 0) : Type 0 where
  pub shards : List (Assoc K RateWindow)
  pub hasher : K → ℕ
  pub max_keys : ℕ

module _ {K : Type 0} ⦃e : Comparable K⦄ where
  -- `NewTimeWindowLimiter`
  pub init : ℕ → ℕ → (K → ℕ) → TimeWindowLimiter K
  init num_shards max_keys hasher = record {
    shards = replicate num_shards [];
    hasher = hasher;
    max_keys = max_keys;
  }

  -- the loop over a full shard: every window is pruned, and an empty one is deleted
  unfoldable pub sweep : ℕ → ℕ → Assoc K RateWindow → Assoc K RateWindow
  sweep now window [] = []
  sweep now window ((k, win) ∷ rest) =
      let rest' = sweep now window rest in
      let win' = prune win now window in if win'.count == 0 then rest' else (k, win') ∷ rest'

  pub admit_new : ℕ → K → ℕ → ℕ → Assoc K RateWindow → Bool × Assoc K RateWindow
  admit_new max_keys key limit now entries =
      if leb max_keys (length entries)
      then (false, entries)
      else (let (admitted, win) = record_event fresh now limit in
          (admitted, insert key win entries))

  -- The body of `Allow` under the shard's lock. The window that `Allow` updates is the one that
  -- the map holds, so what `Record` did to it is in the map also when it refused.
  unfoldable pub allow_in_shard : ℕ → K → ℕ → ℕ → ℕ → Assoc K RateWindow → Bool × Assoc K RateWindow
  unfolding admit_new
  allow_in_shard max_keys key limit now window entries = elim (lookup key entries) [
    | some win ↦
        (let (admitted, win') = record_event (prune win now window) now limit in
          (admitted, insert key win' entries))
    | none ↦
        admit_new max_keys key limit now
          (if leb max_keys (length entries) then sweep now window entries else entries)
  ]

  abbrev pub shard_index : TimeWindowLimiter K → K → ℕ
  shard_index l key = l.hasher key % length l.shards

  -- `Allow`
  unfoldable pub allow : TimeWindowLimiter K → K → ℕ → ℕ → ℕ → Bool × TimeWindowLimiter K
  allow l key limit now window =
      let i = shard_index l key in
      let (admitted, entries) =
        allow_in_shard l.max_keys key limit now window (get_or l.shards i []) in
      (admitted, record l { shards = set l.shards i entries })
