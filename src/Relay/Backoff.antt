-- ===== src/Relay/Backoff.antt =====
-- internal/service/relay_service.go: how long a failed delivery waits.
use native.Mathlib.Nat.{pow-le-pow_right}
use neo_nect_server.Base.{
  ℕ, ◌*◌, ◌%◌, ◌^◌, ◌≤◌, ◌<◌, ◌≡◌, ap, inl, inr, false, arith, ltb, min, pos, ltz, Bool-cases,
}
use neo_nect_server.Db.{QueueRow}
use neo_nect_server.Relay.Worker.{
  signed, backoff_after, retry_count_at_claim, retry_count_at_failure,
}

power_bounds : (n : ℕ) → 1 ≤ n → n ≤ 21 → (2 ≤ 2 ^ n) × (2 ^ n ≤ 2097152)
power_bounds n low high = (pow-le-pow_right (omega arith) low, pow-le-pow_right (omega arith) high)

no_wrap : (p : ℕ) → p ≤ 2097152 → (p % 2 ^ 64) * 30 % 2 ^ 64 ≡ p * 30
no_wrap p h = ground arith

signed-small : (p : ℕ) → p ≤ 62914560 → signed p ≡ pos p
unfolding signed
signed-small p h = ground arith

waits : (n : ℕ) → 2 ^ n ≤ 2097152 → backoff_after n ≡ pos (min (2 ^ n * 30) 3600)
unfolding backoff_after ltz
waits n h =
    rw (no_wrap (2 ^ n) h, signed-small (2 ^ n * 30) (omega (arith, h)))
      (elim (Bool-cases (ltb 3600 (2 ^ n * 30))) [
        | inl long ↦ rw long (ap pos (ground arith))
        | inr short ↦ rw short (ap pos (ground arith))
      ])

-- The wait after a failed delivery of an item that is not out of attempts is 30 seconds doubled for
-- each attempt, at most an hour and at least a minute, and neither the shift nor the product leaves the
-- range of an int64.
pub backoff_exact :
    (item : QueueRow)
    → ltb 20 (retry_count_at_claim item) ≡ false
    → (backoff_after (retry_count_at_failure item)
        ≡ pos (min (2 ^ retry_count_at_failure item * 30) 3600))
      × (60 ≤ min (2 ^ retry_count_at_failure item * 30) 3600)
      × (2 ^ retry_count_at_failure item < 2 ^ 63)
      × (2 ^ retry_count_at_failure item * 30 < 2 ^ 63)
unfolding retry_count_at_claim retry_count_at_failure
backoff_exact item more = bounded (retry_count_at_failure item) (ground arith) (ground arith)
  where
    bounded :
        (n : ℕ)
        → 1 ≤ n
        → n ≤ 21
        → (backoff_after n ≡ pos (min (2 ^ n * 30) 3600))
          × (60 ≤ min (2 ^ n * 30) 3600)
          × (2 ^ n < 2 ^ 63)
          × (2 ^ n * 30 < 2 ^ 63)
    bounded n low high =
        let (l, h) = power_bounds n low high in
        (waits n h, ground arith, omega (arith, h), omega (arith, h))
