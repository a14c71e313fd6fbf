-- ===== src/Prekeys/Replay.antt =====
-- internal/infrastructure/persistence/prekey_manager.go: `ClaimPrekeysIdempotent`. `build` is the
-- callback `buildResponse`, which answers a payload and an HTTP status.
use neo_nect_server.Base.{
  ℕ, Bool, not, ◌&&◌, none, some, String, [], ◌∷◌, ◌++◌, ◌==◌, nat_eq, string_eq, Bytes,
  if◌then◌else◌, any, find, update,
}
use neo_nect_server.Error.{
  driver_failure, Result, ok, err, no_rows, unique_violation, foreign_key_violation,
  fingerprint_mismatch, request_in_progress,
}
use neo_nect_server.Db.{
  IdempotencyRow, Tables, Db, pure, raise, ◌>>=◌, ◌>>◌, attempt, statement, Ending, to_commit,
  to_roll_back, transaction_ending,
}
use neo_nect_server.Friends.{has_user}
use neo_nect_server.Prekeys.{Bundle, gather}

abbrev pub is_record : ℕ → String → IdempotencyRow → Bool
is_record uid key r = r.user_id == uid && r.idempotency_key == key

-- a stored response: the payload and the HTTP status
abbrev pub Response : Type 0
Response = Bytes × ℕ

-- The SELECT and its Scan: NULL does not scan into an `int`.
unfoldable pub select_response : ℕ → String → Tables → Result ((String × Response) × Tables)
select_response uid key t = elim (find (is_record uid key) t.idempotency) [
  | none ↦ err no_rows
  | some r ↦ elim r.response [
    | none ↦ err driver_failure
    | some response ↦ ok ((r.request_fingerprint, response), t)
  ]
]

unfoldable pub insert_record : ℕ → String → String → String → Tables → Result (Unit {0} × Tables)
insert_record uid key fingerprint device_id t =
    if any (is_record uid key) t.idempotency
    then err unique_violation
    else if not (has_user uid t)
    then err foreign_key_violation
    else ok (
      tt,
      record t {
        idempotency =
            t.idempotency
            ++ (record {
              user_id = uid;
              idempotency_key = key;
              request_fingerprint = fingerprint;
              target_device_id = device_id;
              response = none;
            }
                ∷ []);
      },
    )

-- `if err != nil { return nil, 0, errors.New(…) }`, whatever the error
unfoldable pub locked : Result (Unit {0}) → Db (Unit {0})
locked (ok _) = pure tt
locked (err _) = raise request_in_progress

unfoldable pub store_response : ℕ → String → Response → Tables → Result (Unit {0} × Tables)
store_response uid key response t = ok (
  tt,
  record t {
    idempotency =
        update (is_record uid key) (λ r. record r { response = some response }) t.idempotency;
  },
)

unfoldable pub built : Result Response → Db Response
built (ok response) = pure response
built (err e) = raise e

-- what is done when no record stands under the key
unfoldable pub claim_first :
    ℕ → String → String → String → (Bundle → Result Response) → Db (Ending Response)
unfolding insert_record locked store_response built
claim_first uid device_id key fingerprint build = do
  lock ← attempt (statement (insert_record uid key fingerprint device_id))
  locked lock
  bundle ← gather device_id
  response ← built (build bundle)
  statement (store_response uid key response)
  pure (to_commit response)

unfoldable pub replay_or_claim :
    ℕ
    → String
    → String
    → String
    → (Bundle → Result Response)
    → Result (String × Response)
    → Db (Ending Response)
unfolding claim_first
replay_or_claim uid device_id key fingerprint build (ok (stored, response)) =
    if not (stored == fingerprint) then raise fingerprint_mismatch else pure (to_roll_back response)
replay_or_claim uid device_id key fingerprint build (err no_rows) =
    claim_first uid device_id key fingerprint build
replay_or_claim uid device_id key fingerprint build (err e) = raise e

unfoldable pub claim_prekeys_idempotent :
    ℕ → String → String → String → (Bundle → Result Response) → Db Response
unfolding select_response replay_or_claim
claim_prekeys_idempotent uid device_id key fingerprint build = transaction_ending (do
  existing ← attempt (statement (select_response uid key))
  replay_or_claim uid device_id key fingerprint build existing)
