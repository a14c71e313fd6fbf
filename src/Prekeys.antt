-- ===== src/Prekeys.antt =====
-- internal/infrastructure/persistence/prekey_manager.go: the prekeys of a device. The curve keys and
-- the post-quantum keys stand in tables of one form, and the code treats them alike.
pub mod Replay
pub mod Upload
pub mod Service
pub mod OnceOnly
pub mod Room
pub mod Limit
pub mod Stored
pub mod Again
pub mod Idempotent
mod Tests
use neo_nect_server.Base.{
  ℕ, ◌+◌, Bool, true, false, not, ◌&&◌, Option, none, some, String, List, [], ◌∷◌, ◌++◌, ltb, leb,
  ◌==◌, nat_eq, string_eq, Bytes, length, if◌then◌else◌, any, find, count, update,
}
use neo_nect_server.Error.{
  Error, driver_failure, Result, ok, err, no_rows, unique_violation, foreign_key_violation,
  device_not_found_or_inactive, stored_prekey_limit_exceeded, fingerprint_mismatch,
  request_in_progress,
}
use neo_nect_server.Db.{
  DeviceRow, DeviceStatus, SignedRow, OneTimeRow, PrekeyStatus, IdempotencyRow, Tables, Db, pure,
  raise, ◌>>=◌, ◌>>◌, attempt, statement, transaction, Ending, to_commit, to_roll_back,
  transaction_ending,
}

-- The records of repository.go, whose field DeviceID is always the device of the call.
pub record SignedPrekey : Type 0 where
  pub key_id : ℕ
  pub public_key : Bytes
  pub signature : Bytes

pub record OneTimePrekey : Type 0 where
  pub key_id : ℕ
  pub public_key : Bytes

pub record Bundle : Type 0 where
  pub identity_key : Bytes
  pub signed_curve : Option SignedPrekey
  pub one_time_curve : Option OneTimePrekey
  pub signed_pq : Option SignedPrekey
  pub one_time_pq : Option OneTimePrekey

abbrev pub is_available : PrekeyStatus → Bool
is_available s = elim s [ PrekeyStatus.available ↦ true | PrekeyStatus.consumed ↦ false ]

abbrev pub is_key : String → ℕ → OneTimeRow → Bool
is_key device_id key_id r = r.device_id == device_id && r.key_id == key_id

abbrev pub is_free : String → OneTimeRow → Bool
is_free device_id r = r.device_id == device_id && is_available r.status

-- `SELECT key_id … WHERE device_id = ? AND status = 'AVAILABLE' ORDER BY key_id ASC LIMIT 1`
unfoldable pub lowest_free : String → List OneTimeRow → Option ℕ
lowest_free device_id [] = none
lowest_free device_id (r ∷ rows) =
    let rest = lowest_free device_id rows in
    if is_free device_id r
    then elim rest [ none ↦ some r.key_id | some k ↦ some (if leb k r.key_id then k else r.key_id) ]
    else rest

abbrev pub use_up : String → ℕ → List OneTimeRow → List OneTimeRow
use_up device_id key_id rows =
    update (is_key device_id key_id) (λ r. record r { status = PrekeyStatus.consumed }) rows

-- `UPDATE … SET status = 'CONSUMED' … RETURNING key_id, public_key`
unfoldable pub consume : String → List OneTimeRow → Result (OneTimePrekey × List OneTimeRow)
unfolding lowest_free
consume device_id rows = elim (lowest_free device_id rows) [
  | none ↦ err no_rows
  | some k ↦ elim (find (is_key device_id k) rows) [
    | none ↦ err no_rows
    | some r ↦ ok (record { key_id = r.key_id; public_key = r.public_key }, use_up device_id k rows)
  ]
]

unfoldable pub put_curve :
    Tables → Result (OneTimePrekey × List OneTimeRow) → Result (OneTimePrekey × Tables)
put_curve t (ok (p, rows)) = ok (p, record t { one_time_curve = rows })
put_curve t (err e) = err e

unfoldable pub consume_curve : String → Tables → Result (OneTimePrekey × Tables)
unfolding put_curve
consume_curve device_id t = put_curve t (consume device_id t.one_time_curve)

unfoldable pub put_pq :
    Tables → Result (OneTimePrekey × List OneTimeRow) → Result (OneTimePrekey × Tables)
put_pq t (ok (p, rows)) = ok (p, record t { one_time_pq = rows })
put_pq t (err e) = err e

unfoldable pub consume_pq : String → Tables → Result (OneTimePrekey × Tables)
unfolding put_pq
consume_pq device_id t = put_pq t (consume device_id t.one_time_pq)

unfoldable pub select_identity_key : String → Tables → Result (Bytes × Tables)
select_identity_key device_id t =
    elim (find
      (λ d.
        d.device_id == device_id
        && (elim d.status [ DeviceStatus.active ↦ true | DeviceStatus.revoked ↦ false ]))
      t.devices) [ none ↦ err no_rows | some d ↦ ok (d.identity_key, t) ]

unfoldable pub select_signed : String → List SignedRow → Tables → Result (SignedPrekey × Tables)
select_signed device_id rows t = elim (find (λ r. r.device_id == device_id) rows) [
  | none ↦ err no_rows
  | some r ↦
      ok (record { key_id = r.key_id; public_key = r.public_key; signature = r.signature }, t)
]

-- `if errors.Is(err, sql.ErrNoRows) { bundle.… = nil } else { return nil, err }`
unfoldable pub or_nil : {A : Type 0} → Result A → Db (Option A)
or_nil (ok a) = pure (some a)
or_nil (err no_rows) = pure none
or_nil (err e) = raise e

unfoldable pub identity_error : Error → Error
identity_error no_rows = device_not_found_or_inactive
identity_error e = e

unfoldable pub identified : Result Bytes → Db Bytes
unfolding identity_error
identified (ok key) = pure key
identified (err e) = raise (identity_error e)

-- steps 1 to 5, which both claims share
unfoldable pub gather : String → Db Bundle
gather device_id = do
  curve ← attempt (statement (consume_curve device_id))
  one_time_curve ← or_nil curve
  pq ← attempt (statement (consume_pq device_id))
  one_time_pq ← or_nil pq
  key ← attempt (statement (select_identity_key device_id))
  identity_key ← identified key
  found_curve ← attempt (statement (λ t. select_signed device_id t.signed_curve t))
  signed_curve ← or_nil found_curve
  found_pq ← attempt (statement (λ t. select_signed device_id t.signed_pq t))
  signed_pq ← or_nil found_pq
  pure (record {
    identity_key = identity_key;
    signed_curve = signed_curve;
    one_time_curve = one_time_curve;
    signed_pq = signed_pq;
    one_time_pq = one_time_pq;
  })

unfoldable pub claim_prekeys : String → Db Bundle
claim_prekeys device_id = transaction (gather device_id)
