-- ===== src/Queue/Runs.antt =====
-- internal/infrastructure/persistence/delivery_queue_manager.go: runs of the operations of the queue
-- that the relay uses, in any order. (`Enqueue`, which minds no quota, has no caller.)
use neo_nect_server.Base.{ℕ, String, Bytes, List, [], ◌∷◌}
use neo_nect_server.Db.{World}
use neo_nect_server.Queue.{
  QueueConfig, Envelope, enqueue_envelope, update_state, claim_item, acknowledge, cleanup,
}
use neo_nect_server.Queue.FanOut.{fan_out_message}
use neo_nect_server.Queue.Quota.{
  IsWithinQuota, enqueue_envelope-IsWithinQuota, acknowledge-IsWithinQuota, cleanup-IsWithinQuota,
  update_state-IsWithinQuota, claim_item-IsWithinQuota,
}
use neo_nect_server.Queue.FanQuota.{IsDistinct, fan_out_message-IsWithinQuota}

-- A call of the repository that changes the queue, with the time at which it is made.
pub data QueueCall : Type 0 where
  send_one : ℕ → Envelope → ℕ → ℕ → QueueCall
  send_all : ℕ → (ds : List String) → Bytes → ℕ → QueueCall
  confirm : String → ℕ → QueueCall
  expire : ℕ → QueueCall
  reschedule : ℕ → ℕ → ℕ → ℕ → QueueCall
  lock : ℕ → ℕ → ℕ → QueueCall

unfoldable pub after_call : QueueConfig → QueueCall → World → World
after_call cfg (send_one now e ttl sequence) w = (enqueue_envelope cfg now e ttl sequence w).1
after_call cfg (send_all now ds payload ttl) w = (fan_out_message cfg now ds payload ttl w).1
after_call cfg (confirm d item) w = (acknowledge d item w).1
after_call cfg (expire now) w = (cleanup now w).1
after_call cfg (reschedule item retry_count next_retry ack_deadline) w =
    (update_state item retry_count next_retry ack_deadline w).1
after_call cfg (lock item next_retry current) w = (claim_item item next_retry current w).1

unfoldable pub after_calls : QueueConfig → List QueueCall → World → World
unfolding after_call
after_calls cfg [] w = w
after_calls cfg (c ∷ calls) w = after_calls cfg calls (after_call cfg c w)

-- Each message to several devices names no device twice.
abbrev pub AreDistinct : List QueueCall → Type 0
AreDistinct [] = Unit {0}
AreDistinct (send_all _ ds _ _ ∷ calls) = IsDistinct ds × AreDistinct calls
AreDistinct (_ ∷ calls) = AreDistinct calls

-- Any run of the operations of the queue that the relay uses, whichever driver calls fail, keeps every
-- mailbox within the configured number of messages and bytes, if no fan-out names a device twice. They
-- are the operations of `QueueCall`; `Enqueue`, which asks for no quota, is not among them.
pub after_calls-IsWithinQuota :
    (cfg : QueueConfig) (calls : List QueueCall) (w : World)
    → AreDistinct calls
    → IsWithinQuota cfg w.tables
    → IsWithinQuota cfg (after_calls cfg calls w).tables
unfolding after_calls
after_calls-IsWithinQuota cfg [] w u q = q
after_calls-IsWithinQuota cfg (send_one now e ttl sequence ∷ calls) w u q =
    after_calls-IsWithinQuota cfg calls _ u
      ((enqueue_envelope-IsWithinQuota cfg now e ttl sequence).at w q)
after_calls-IsWithinQuota cfg (send_all now ds payload ttl ∷ calls) w (d, u) q =
    after_calls-IsWithinQuota cfg calls _ u
      ((fan_out_message-IsWithinQuota cfg now ds payload ttl d).at w q)
after_calls-IsWithinQuota cfg (confirm d item ∷ calls) w u q =
    after_calls-IsWithinQuota cfg calls _ u ((acknowledge-IsWithinQuota cfg d item).at w q)
after_calls-IsWithinQuota cfg (expire now ∷ calls) w u q =
    after_calls-IsWithinQuota cfg calls _ u ((cleanup-IsWithinQuota cfg now).at w q)
after_calls-IsWithinQuota cfg (reschedule item retry_count next_retry ack_deadline ∷ calls) w u q =
    after_calls-IsWithinQuota cfg calls _ u
      ((update_state-IsWithinQuota cfg item retry_count next_retry ack_deadline).at w q)
after_calls-IsWithinQuota cfg (lock item next_retry current ∷ calls) w u q =
    after_calls-IsWithinQuota cfg calls _ u
      ((claim_item-IsWithinQuota cfg item next_retry current).at w q)
