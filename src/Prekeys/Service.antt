-- ===== src/Prekeys/Service.antt =====
-- internal/service/prekey_service.go: the prekey service. `reveal` stands for `SystemVault.Reveal`.
use neo_nect_server.Base.{
  ℕ, Bool, true, false, not, ◌&&◌, ◌||◌, Option, none, some, String, List, [], ◌∷◌, ltb, ◌==◌,
  nat_eq, string_eq, Bytes, length, if◌then◌else◌,
}
use neo_nect_server.Error.{
  Result, ok, err, unauthorized_device_access, prekey_limit_exceeded, invalid_prekey_batch,
  unauthorized_prekey_claim,
}
use neo_nect_server.Db.{Db, pure, raise, ◌>>=◌, ◌>>◌, statement}
use neo_nect_server.Friends.{check_friendship}
use neo_nect_server.Relay.{select_device_owner, is_active_device_owned_by_user}
use neo_nect_server.Prekeys.{SignedPrekey, OneTimePrekey, Bundle, claim_prekeys}
use neo_nect_server.Prekeys.Replay.{Response, claim_prekeys_idempotent}
use neo_nect_server.Prekeys.Upload.{upload_prekeys}

abbrev pub max_one_time_prekeys : ℕ
max_one_time_prekeys = 200

-- `len(b) == 0 || len(b) > 2048`
abbrev pub is_bad_length : Bytes → Bool
is_bad_length b = length b == 0 || ltb 2048 (length b)

unfoldable pub is_valid_signed : Option SignedPrekey → Bool
is_valid_signed none = true
is_valid_signed (some p) = not (is_bad_length p.public_key) && not (is_bad_length p.signature)

unfoldable pub are_valid_one_time : List OneTimePrekey → Bool
are_valid_one_time [] = true
are_valid_one_time (p ∷ ps) =
    let rest = are_valid_one_time ps in if is_bad_length p.public_key then false else rest

unfoldable pub upload_own :
    ℕ
    → String
    → Option SignedPrekey
    → List OneTimePrekey
    → Option SignedPrekey
    → List OneTimePrekey
    → Db (Unit {0})
unfolding is_valid_signed are_valid_one_time
upload_own uid device_id signed_curve one_time_curve signed_pq one_time_pq = do
  owned ← is_active_device_owned_by_user uid device_id
  if not owned
      then raise unauthorized_device_access
      else if ltb max_one_time_prekeys (length one_time_curve)
          || ltb max_one_time_prekeys (length one_time_pq)
      then raise prekey_limit_exceeded
      else if not (
          is_valid_signed signed_curve
          && is_valid_signed signed_pq
          && are_valid_one_time one_time_curve
          && are_valid_one_time one_time_pq)
      then raise invalid_prekey_batch
      else upload_prekeys device_id signed_curve one_time_curve signed_pq one_time_pq

-- the check that both claims begin with
unfoldable pub authorize_claim : ℕ → String → Db (Unit {0})
authorize_claim caller device_id = do
  owner ← statement (select_device_owner device_id)
  if caller == owner then pure tt else do
    is_friend ← check_friendship caller owner
    if is_friend then pure tt else raise unauthorized_prekey_claim

module _ (reveal : Bytes → Result Bytes) where
  -- `if len(bundle.IdentityKey) > 0 { … Reveal … }`
  unfoldable pub revealed : Bundle → Result Bundle
  revealed b = if length b.identity_key == 0 then ok b else elim (reveal b.identity_key) [
    | ok key ↦ ok (record b { identity_key = key })
    | err e ↦ err e
  ]

  unfoldable pub claim_for : ℕ → String → Db Bundle
  unfolding revealed authorize_claim
  claim_for caller device_id = do
    authorize_claim caller device_id
    bundle ← claim_prekeys device_id
    elim (revealed bundle) [ ok b ↦ pure b | err e ↦ raise e ]

  unfoldable pub claim_for_idempotent :
      ℕ → String → String → String → (Bundle → Result Response) → Db Response
  unfolding revealed authorize_claim
  claim_for_idempotent caller device_id key fingerprint build = do
    authorize_claim caller device_id
    claim_prekeys_idempotent caller device_id key fingerprint
        (λ bundle. elim (revealed bundle) [ ok b ↦ build b | err e ↦ err e ])
