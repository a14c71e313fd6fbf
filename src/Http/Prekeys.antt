-- ===== src/Http/Prekeys.antt =====
-- internal/api/prekey_handlers.go: the handlers of the prekeys. `fingerprint` is the hash of the
-- request's JSON, and `marshal` is `json.Marshal` of a bundle.
use neo_nect_server.Base.{
  ℕ, not, Option, none, some, String, Bytes, List, [], ◌∷◌, ◌==◌, string_eq, if◌then◌else◌,
}
use neo_nect_server.Error.{
  Error, Result, ok, err, unauthorized_device_access, prekey_limit_exceeded,
  stored_prekey_limit_exceeded, invalid_prekey_batch, unauthorized_prekey_claim,
  device_not_found_or_inactive, fingerprint_mismatch, request_in_progress,
}
use neo_nect_server.Prekeys.{SignedPrekey, OneTimePrekey, Bundle}
use neo_nect_server.Prekeys.Replay.{Response as Stored}
use neo_nect_server.Prekeys.Service.{upload_own, claim_for, claim_for_idempotent}
use neo_nect_server.Http.{
  Env, Request, Parsed, of_error, Body, SignedPrekeyJson, OneTimePrekeyJson, PrekeyBundleResponse,
  bundle, stored, Response, plain, failure, Http, pure, ◌>>=◌, ◌>>◌, answer, ask, require_session,
  check_message_limit, check_discovery_limit, parse_json, require_text, unauthorized, bad_request,
  server_error, not_found, success,
}

pub record PrekeyUploadRequest : Type 0 where
  pub device_id : String
  pub signed_curve_prekey : Option SignedPrekeyJson
  pub one_time_curve_prekeys : List OneTimePrekeyJson
  pub signed_pq_prekey : Option SignedPrekeyJson
  pub one_time_pq_prekeys : List OneTimePrekeyJson

pub record PrekeyClaimRequest : Type 0 where
  pub target_user : String
  pub target_device : String

-- The limit of the repository has the same text as that of the service.
unfoldable pub upload_error : Error → Response
upload_error unauthorized_device_access = unauthorized
upload_error prekey_limit_exceeded = plain 400 (Body.error (of_error prekey_limit_exceeded))
upload_error stored_prekey_limit_exceeded =
    plain 400 (Body.error (of_error stored_prekey_limit_exceeded))
upload_error invalid_prekey_batch = plain 400 (Body.error (of_error invalid_prekey_batch))
upload_error e = server_error

unfoldable pub claim_error : Error → Response
claim_error unauthorized_prekey_claim = unauthorized
claim_error device_not_found_or_inactive = not_found
claim_error e = server_error

-- Both conflicts of the repository have "idempotency conflict" in their texts.
unfoldable pub claim_idempotent_error : Error → Response
claim_idempotent_error unauthorized_prekey_claim = unauthorized
claim_idempotent_error device_not_found_or_inactive = not_found
claim_idempotent_error fingerprint_mismatch = failure 409 "Conflict"
claim_idempotent_error request_in_progress = failure 409 "Conflict"
claim_idempotent_error e = server_error

unfoldable pub accepted : {A : Type 0} → Option A → Http A
accepted (some a) = pure a
accepted none = answer bad_request

module _ (env : Env) where
  -- `decodeSignedPrekey` and `decodeOneTimePrekeys`: none for an error
  unfoldable pub decode_key : SignedPrekeyJson → Option Bytes → Option Bytes → Option SignedPrekey
  decode_key spk (some pub_key) (some sig) =
      some (record { key_id = spk.key_id; public_key = pub_key; signature = sig })
  decode_key spk (some pub_key) none = none
  decode_key spk none sig = none

  unfoldable pub decode_signed_prekey : Option SignedPrekeyJson → Option (Option SignedPrekey)
  unfolding decode_key
  decode_signed_prekey none = some none
  decode_signed_prekey (some spk) =
      elim (decode_key spk (env.decode_base64 spk.public_key) (env.decode_base64 spk.signature)) [
        | none ↦ none
        | some k ↦ some (some k)
      ]

  unfoldable pub decode_one_time_prekeys : List OneTimePrekeyJson → Option (List OneTimePrekey)
  decode_one_time_prekeys [] = some []
  decode_one_time_prekeys (p ∷ opks) =
      let rest = decode_one_time_prekeys opks in
      elim (env.decode_base64 p.public_key) [
        | none ↦ none
        | some pub_key ↦ elim rest [
          | none ↦ none
          | some records ↦ some (record { key_id = p.key_id; public_key = pub_key } ∷ records)
        ]
      ]

  unfoldable pub handle_upload_prekeys : Request → Parsed PrekeyUploadRequest → Http Response
  unfolding decode_signed_prekey decode_one_time_prekeys accepted upload_error
  handle_upload_prekeys r body = do
    uid ← require_session env r
    check_message_limit r uid
    request ← parse_json body
    require_text request.device_id
    signed_curve ← accepted (decode_signed_prekey request.signed_curve_prekey)
    signed_pq ← accepted (decode_signed_prekey request.signed_pq_prekey)
    one_time_curve ← accepted (decode_one_time_prekeys request.one_time_curve_prekeys)
    one_time_pq ← accepted (decode_one_time_prekeys request.one_time_pq_prekeys)
    ask upload_error
        (upload_own uid request.device_id signed_curve one_time_curve signed_pq one_time_pq)
    pure (success 200)

  abbrev pub signed_json : Option SignedPrekey → Option SignedPrekeyJson
  signed_json none = none
  signed_json (some k) = some (record {
    key_id = k.key_id;
    public_key = env.encode_base64 k.public_key;
    signature = env.encode_base64 k.signature;
  })

  abbrev pub one_time_json : Option OneTimePrekey → Option OneTimePrekeyJson
  one_time_json none = none
  one_time_json (some k) =
      some (record { key_id = k.key_id; public_key = env.encode_base64 k.public_key })

  abbrev pub to_response : Bundle → PrekeyBundleResponse
  to_response b = record {
    identity_key = env.encode_base64 b.identity_key;
    signed_curve_prekey = signed_json b.signed_curve;
    signed_pq_prekey = signed_json b.signed_pq;
    one_time_curve_prekey = one_time_json b.one_time_curve;
    one_time_pq_prekey = one_time_json b.one_time_pq;
  }

  -- `buildResponse`
  unfoldable pub build_response : (PrekeyBundleResponse → Result Bytes) → Bundle → Result Stored
  build_response marshal b = elim (marshal (to_response b)) [
    | ok payload ↦ ok (payload, 200)
    | err e ↦ err e
  ]

  unfoldable pub claim_once :
      (PrekeyBundleResponse → Result Bytes) → Request → ℕ → PrekeyClaimRequest → Http Response
  unfolding build_response claim_idempotent_error
  claim_once marshal r uid request = do
    saved ← ask claim_idempotent_error (
        claim_for_idempotent env.reveal uid request.target_device r.idempotency_key
          (env.fingerprint request.target_user request.target_device) (build_response marshal))
    pure (plain saved.1 (stored saved.0))

  unfoldable pub claim_again : ℕ → PrekeyClaimRequest → Http Response
  unfolding claim_error
  claim_again uid request = do
    b ← ask claim_error (claim_for env.reveal uid request.target_device)
    pure (plain 200 (bundle (to_response b)))

  unfoldable pub handle_claim_prekeys :
      (PrekeyBundleResponse → Result Bytes) → Request → Parsed PrekeyClaimRequest → Http Response
  unfolding claim_once claim_again
  handle_claim_prekeys marshal r body = do
    uid ← require_session env r
    check_message_limit r uid
    check_discovery_limit r uid
    request ← parse_json body
    require_text request.target_device
    if not (r.idempotency_key == "")
        then claim_once marshal r uid request
        else claim_again uid request
