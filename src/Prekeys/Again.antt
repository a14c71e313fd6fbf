-- ===== src/Prekeys/Again.antt =====
-- internal/infrastructure/persistence/prekey_manager.go: a request under a key that holds a response.
use neo_nect_server.Base.{
  ℕ, suc, ◌≡◌, refl, inl, inr, ◌⊎◌, some, String, ◌==◌, nat_eq, string_eq, find, Bool-cases,
  if◌then◌else◌,
}
use neo_nect_server.Error.{Result, ok, err, driver_failure, fingerprint_mismatch}
use neo_nect_server.Db.{IdempotencyRow, Tables, World, statement, transaction_ending}
use neo_nect_server.Prekeys.{Bundle}
use neo_nect_server.Prekeys.Replay.{
  is_record, Response, select_response, replay_or_claim, claim_prekeys_idempotent,
}

-- The response stands under the key, for the request of this fingerprint.
pub record IsStored (uid : ℕ) (key fingerprint : String) (response : Response) (t : Tables)
    : Type 0 where
  pub row : IdempotencyRow
  pub found : find (is_record uid key) t.idempotency ≡ some row
  pub answered : row.response ≡ some response
  pub same_request : row.request_fingerprint ≡ fingerprint

-- How a request under the key ends then.
abbrev pub replayed : String → String → Response → Result Response
replayed fingerprint fingerprint' response =
    if fingerprint == fingerprint' then ok response else err fingerprint_mismatch

pub select_response-stored :
    (uid : ℕ) (key stored : String) (response : Response) (t : Tables)
    → IsStored uid key stored response t
    → select_response uid key t ≡ ok ((stored, response), t)
unfolding select_response
select_response-stored uid key stored response t s =
    rw (s.found, select_response, s.answered, s.same_request) refl

module _ (uid : ℕ) (d key fingerprint : String) (build : Bundle → Result Response) where
  pub replay :
      (stored : String) (response : Response) (w : World)
      → IsStored uid key stored response w.tables
      → (((claim_prekeys_idempotent uid d key fingerprint build w).0
            ≡ replayed stored fingerprint response)
          ⊎ ((claim_prekeys_idempotent uid d key fingerprint build w).0 ≡ err driver_failure))
        × ((claim_prekeys_idempotent uid d key fingerprint build w).1.tables ≡ w.tables)
  unfolding claim_prekeys_idempotent transaction_ending statement replay_or_claim
  replay stored response w s = elim (Bool-cases (w.fails w.calls)) [
    | inl failed ↦ rw failed (inr refl, refl)
    | inr begun ↦ elim (Bool-cases (w.fails (suc w.calls))) [
      | inl failed ↦ rw (begun, failed) (inr refl, refl)
      | inr answered ↦ elim (Bool-cases (stored == fingerprint)) [
        | inl same ↦
            rw (begun, answered, select_response-stored uid key stored response w.tables s, same)
              (inl refl, refl)
        | inr other ↦
            rw (begun, answered, select_response-stored uid key stored response w.tables s, other)
              (inl refl, refl)
      ]
    ]
  ]
