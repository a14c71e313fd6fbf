-- ===== src/Prekeys/Upload.antt =====
-- internal/infrastructure/persistence/prekey_manager.go: `UploadPrekeys`.
use neo_nect_server.Base.{
  ◌+◌, Bool, Option, none, some, String, List, [], ◌∷◌, ◌++◌, ltb, ◌==◌, nat_eq, string_eq, length,
  if◌then◌else◌, any, count, update,
}
use neo_nect_server.Error.{ok, err, foreign_key_violation, stored_prekey_limit_exceeded}
use neo_nect_server.Db.{
  SignedRow, OneTimeRow, PrekeyStatus, Tables, Db, pure, raise, ◌>>=◌, ◌>>◌, statement, transaction,
}
use neo_nect_server.Prekeys.{SignedPrekey, OneTimePrekey, is_key}

abbrev pub has_device : String → Tables → Bool
has_device device_id t = any (λ d. d.device_id == device_id) t.devices

-- the count before keys are added, asked only if there are some
unfoldable pub check_limit :
    String → (Tables → List OneTimeRow) → List OneTimePrekey → Db (Unit {0})
check_limit device_id table [] = pure tt
check_limit device_id table (p ∷ ps) = do
  n ← statement (λ t. ok (count (λ r. r.device_id == device_id) (table t), t))
  if ltb 10000 (n + length (p ∷ ps)) then raise stored_prekey_limit_exceeded else pure tt

-- `INSERT … ON CONFLICT(device_id) DO UPDATE`
unfoldable pub upsert_signed : String → SignedPrekey → List SignedRow → List SignedRow
upsert_signed device_id p rows =
    if any (λ r. r.device_id == device_id) rows
    then update (λ r. r.device_id == device_id)
        (λ r. record r { key_id = p.key_id; public_key = p.public_key; signature = p.signature })
        rows
    else rows
      ++ (record {
        device_id = device_id;
        key_id = p.key_id;
        public_key = p.public_key;
        signature = p.signature;
      }
          ∷ [])

-- `INSERT … ON CONFLICT(device_id, key_id) DO NOTHING`
unfoldable pub insert_one_time : String → OneTimePrekey → List OneTimeRow → List OneTimeRow
insert_one_time device_id p rows =
    if any (is_key device_id p.key_id) rows
    then rows
    else rows
      ++ (record {
        device_id = device_id;
        key_id = p.key_id;
        public_key = p.public_key;
        status = PrekeyStatus.available;
      }
          ∷ [])

-- a statement that needs the device to exist, by the foreign key
abbrev pub for_device : String → (Tables → Tables) → Db (Unit {0})
for_device device_id f =
    statement (λ t. if has_device device_id t then ok (tt, f t) else err foreign_key_violation)

unfoldable pub put_signed :
    String → (SignedPrekey → Tables → Tables) → Option SignedPrekey → Db (Unit {0})
put_signed device_id f none = pure tt
put_signed device_id f (some p) = for_device device_id (f p)

unfoldable pub put_one_time :
    String → (OneTimePrekey → Tables → Tables) → List OneTimePrekey → Db (Unit {0})
put_one_time device_id f [] = pure tt
put_one_time device_id f (p ∷ ps) = for_device device_id (f p) >> put_one_time device_id f ps

-- what the transaction does
unfoldable pub upload_in_transaction :
    String
    → Option SignedPrekey
    → List OneTimePrekey
    → Option SignedPrekey
    → List OneTimePrekey
    → Db (Unit {0})
unfolding check_limit upsert_signed insert_one_time put_signed put_one_time
upload_in_transaction device_id signed_curve one_time_curve signed_pq one_time_pq = do
  check_limit device_id (λ t. t.one_time_curve) one_time_curve
  check_limit device_id (λ t. t.one_time_pq) one_time_pq
  put_signed device_id (λ p t. record t { signed_curve = upsert_signed device_id p t.signed_curve })
      signed_curve
  put_signed device_id (λ p t. record t { signed_pq = upsert_signed device_id p t.signed_pq })
      signed_pq
  put_one_time device_id
      (λ p t. record t { one_time_curve = insert_one_time device_id p t.one_time_curve })
      one_time_curve
  put_one_time device_id
      (λ p t. record t { one_time_pq = insert_one_time device_id p t.one_time_pq }) one_time_pq

unfoldable pub upload_prekeys :
    String
    → Option SignedPrekey
    → List OneTimePrekey
    → Option SignedPrekey
    → List OneTimePrekey
    → Db (Unit {0})
unfolding upload_in_transaction
upload_prekeys device_id signed_curve one_time_curve signed_pq one_time_pq =
    transaction (upload_in_transaction device_id signed_curve one_time_curve signed_pq one_time_pq)
