-- ===== src/Prekeys/Idempotent.antt =====
-- internal/infrastructure/persistence/prekey_manager.go: a claim that is sent again under its key.
use neo_nect_server.Base.{ℕ, ◌≡◌, none, some, String, List, nat_eq, find}
use neo_nect_server.Error.{Error, Result, ok, err}
use neo_nect_server.Db.{
  IdempotencyRow, Tables, Db, statement, attempt, ◌>>=◌, Ending, to_commit, to_roll_back,
}
use neo_nect_server.Prekeys.{Bundle}
use neo_nect_server.Prekeys.Replay.{is_record, Response, select_response, replay_or_claim}
use neo_nect_server.Prekeys.Again.{IsStored}

module _ (uid : ℕ) (d key fingerprint : String) (build : Bundle → Result Response) where
  -- The record of the request, without a response.
  abbrev locked_row : IdempotencyRow
  locked_row = record {
    user_id = uid;
    idempotency_key = key;
    request_fingerprint = fingerprint;
    target_device_id = d;
    response = none;
  }

  abbrev IsHeld : List IdempotencyRow → Type 0
  IsHeld rows = find (is_record uid key) rows ≡ some locked_row

  abbrev Inserted : Result (Unit {0}) → Tables → Type 0
  Inserted r t = elim r [ ok _ ↦ IsHeld t.idempotency | err _ ↦ Unit {0} ]

  -- What a body leaves for its commit or its rollback.
  abbrev Concluded : Tables → Ending Response → Tables → Type 0
  Concluded before (to_commit response) t = IsStored uid key fingerprint response t
  Concluded before (to_roll_back response) t = IsStored uid key fingerprint response before

  abbrev body : Db (Ending Response)
  body = do
    existing ← attempt (statement (select_response uid key))
    replay_or_claim uid d key fingerprint build existing
