-- ===== src/Relay/Worker.antt =====
-- internal/service/relay_service.go: `DeliveryWorker.Process`, one attempt to deliver an item of the
-- queue. `deliver` stands for `WebSocketManager.DeliverMessage` and `has_push` says whether there is a
-- push adapter. The durations are those of internal/config/constants.go, in seconds.
use neo_nect_server.Base.{
  ℕ, ◌+◌, ◌-◌, ℤ, pos, negsuc, ltz, ◌*◌, ◌%◌, ◌^◌, Bool, false, not, ◌&&◌, List, [], ◌∷◌, ltb, ◌==◌,
  nat_eq, if◌then◌else◌,
}
use neo_nect_server.Error.{Result, ok, err}
use neo_nect_server.Db.{QueueRow, Db, pure, ◌>>=◌, ◌>>◌, attempt}
use neo_nect_server.Queue.{claim_item, update_state}

abbrev pub delivery_lock_duration : ℕ
delivery_lock_duration = 120

abbrev pub acknowledgment_timeout : ℕ
acknowledgment_timeout = 60

abbrev pub initial_backoff_duration : ℕ
initial_backoff_duration = 30

abbrev pub maximum_backoff_duration : ℕ
maximum_backoff_duration = 3600

abbrev pub maximum_retry_attempts : ℕ
maximum_retry_attempts = 20

abbrev pub terminal_retry_backoff : ℕ
terminal_retry_backoff = 3600

-- `isClaimed`, unless `err != nil`
unfoldable pub is_claimed : Result Bool → Bool
is_claimed (ok claimed) = claimed
is_claimed (err _) = false

unfoldable pub retry_count_at_claim : QueueRow → ℕ
retry_count_at_claim item =
    if ltb 0 item.ack_deadline then item.retry_count + 1 else item.retry_count

unfoldable pub retry_count_at_failure : QueueRow → ℕ
unfolding retry_count_at_claim
retry_count_at_failure item =
    if item.ack_deadline == 0 then retry_count_at_claim item + 1 else retry_count_at_claim item

-- the `int64` of which these are the low 64 bits
unfoldable pub signed : ℕ → ℤ
signed bits = if ltb bits (2 ^ 63) then pos bits else negsuc (2 ^ 64 - 1 - bits)

-- `int64(1<<uint(retryCount)) * config.InitialBackoffDuration`, bounded. Both operations keep the low
-- 64 bits.
unfoldable pub backoff_after : ℕ → ℤ
unfolding signed ltz
backoff_after retry_count =
    let backoff = signed ((2 ^ retry_count % 2 ^ 64) * initial_backoff_duration % 2 ^ 64) in
    if ltz (pos maximum_backoff_duration) backoff then pos maximum_backoff_duration else backoff

-- `now+backoff`; a time before 1970, which no row is claimed with, is 0
unfoldable pub later : ℕ → ℤ → ℕ
later now (pos seconds) = now + seconds
later now (negsuc seconds) = now - (seconds + 1)

pub data Act : Type 0 where
  delivered pushed : Act

unfoldable pub process : (QueueRow → Bool) → Bool → ℕ → QueueRow → Db (List Act)
unfolding is_claimed retry_count_at_claim retry_count_at_failure backoff_after later
process deliver has_push now item = do
  claimed ← attempt (claim_item item.id (now + delivery_lock_duration) item.next_retry)
  if not (is_claimed claimed)
      then pure []
      else if ltb maximum_retry_attempts (retry_count_at_claim item)
      then (do
        attempt (update_state item.id (retry_count_at_claim item) (now + terminal_retry_backoff) 0)
        pure [])
      else if deliver item
      then (do
        attempt (
            update_state item.id (retry_count_at_claim item) (now + acknowledgment_timeout)
              (now + acknowledgment_timeout))
        pure (delivered ∷ []))
      else (do
        attempt (
            update_state item.id (retry_count_at_failure item)
              (later now (backoff_after (retry_count_at_failure item))) 0)
        pure (if item.retry_count == 0 && has_push then pushed ∷ [] else []))
