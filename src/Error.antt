-- ===== src/Error.antt =====
-- The errors of the program as one type, and a computation that may fail. Go compares its sentinel
-- errors by identity, so each `errors.New` is a constructor of its own.
use mathlib.Core.Path.{◌≡◌, refl}
use mathlib.Core.Logic.{◌⊎◌, inl, inr}

pub data Error : Type 0 where
  -- of the SQL driver: any failure of a statement, `sql.ErrNoRows`, and the constraint failures
  driver_failure no_rows unique_violation check_violation foreign_key_violation : Error
  -- internal/infrastructure/persistence
  duplicate_record record_not_found : Error
  device_conflict device_limit_reached : Error
  envelope_too_large envelope_conflict mailbox_full : Error
  session_expired : Error
  stored_prekey_limit_exceeded device_not_found_or_inactive : Error
  fingerprint_mismatch request_in_progress : Error
  -- internal/service
  user_not_found self_friendship duplicate_friendship : Error
  request_already_sent request_already_received request_not_found : Error
  unauthorized_action concurrent_modifications : Error
  recipient_username_required recipient_not_found recipient_no_devices : Error
  recipient_device_not_found duplicate_conflict mailbox_quota_exceeded : Error
  unauthorized_sender incomplete_envelope : Error
  unauthorized_device_access invalid_prekey_batch prekey_limit_exceeded : Error
  unauthorized_prekey_claim : Error
  username_taken invalid_credentials password_too_short password_complexity : Error
  username_too_short : Error
  -- security, and what `buildResponse` reports
  invalid_key_size truncated_payload cipher_failure response_failure : Error

pub data Result {ℓ} (A : Type ℓ) : Type ℓ where
  ok : A → Result A
  err : Error → Result A

pub Result-cases {ℓ} :
    {A : Type ℓ} (r : Result A) → ((a : A) × (r ≡ ok a)) ⊎ ((e : Error) × (r ≡ err e))
Result-cases (ok a) = inl (a, refl)
Result-cases (err e) = inr (e, refl)
