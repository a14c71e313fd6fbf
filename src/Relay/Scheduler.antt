-- ===== src/Relay/Scheduler.antt =====
-- internal/service/relay_service.go: a round of the scheduler and of the maintenance. `deliver` and
-- `has_push` are those of the worker, `started` is the time that the worker of an item reads, and
-- `arrange` the order in which the goroutines of a round run, one after another.
use neo_nect_server.Base.{ℕ, Bool, List, [], ◌∷◌, ◌++◌}
use neo_nect_server.Error.{Result, ok, err}
use neo_nect_server.Db.{QueueRow, Db, pure, ◌>>=◌, ◌>>◌, attempt}
use neo_nect_server.Queue.{QueueConfig, get_due_items, cleanup}
use neo_nect_server.Relay.Worker.{Act, process}

-- the goroutines of `dispatchDueMessages`
unfoldable pub process_all :
    (QueueRow → Bool) → Bool → (QueueRow → ℕ) → List QueueRow → Db (List Act)
unfolding process
process_all deliver has_push started [] = pure []
process_all deliver has_push started (item ∷ items) = do
  acts ← process deliver has_push (started item) item
  rest ← process_all deliver has_push started items
  pure (acts ++ rest)

unfoldable pub dispatched :
    (QueueRow → Bool)
    → Bool
    → (QueueRow → ℕ)
    → (List QueueRow → List QueueRow)
    → Result (List QueueRow)
    → Db (List Act)
unfolding process_all
dispatched deliver has_push started arrange (err _) = pure []
dispatched deliver has_push started arrange (ok items) =
    process_all deliver has_push started (arrange items)

unfoldable pub dispatch_due_messages :
    (QueueRow → Bool)
    → Bool
    → (QueueRow → ℕ)
    → (List QueueRow → List QueueRow)
    → QueueConfig
    → ℕ
    → Db (List Act)
unfolding dispatched
dispatch_due_messages deliver has_push started arrange cfg now = do
  items ← attempt (get_due_items cfg now)
  dispatched deliver has_push started arrange items

unfoldable pub perform_maintenance : ℕ → Db (Unit {0})
perform_maintenance now = do attempt (cleanup now); pure tt
