-- ===== src/Devices/Revoked.antt =====
-- internal/infrastructure/persistence/device_manager.go: a device that was revoked stays so, whatever is
-- registered and revoked after it.
use mathlib.Core.Path.{subst}
use neo_nect_server.Base.{
  ℕ, ◌≡◌, refl, sym, inl, inr, true, false, some, String, List, [], ◌∷◌, arith, ◌==◌, nat_eq,
  string_eq, any, any-append, any-of-find, count, ltb, Bytes, find-holds, find, find-append,
  Bool-cases, find-update, update,
}
use neo_nect_server.Error.{Result, ok, err}
use neo_nect_server.Db.{DeviceRow, Tables, World}
use neo_nect_server.Db.Keeps.{
  Keeps, Keeps-statement, Keeps-pure, Keeps-raise, Keeps-bind, Keeps-if, Keeps-attempt,
  Keeps-transaction, After, success, failure,
}
use neo_nect_server.Queue.{QueueConfig, Envelope}
use neo_nect_server.Relay.{send_envelope}
use neo_nect_server.Relay.Consent.{Refused}
use neo_nect_server.Devices.{
  is_device, is_of, is_revocable, revoke, insert_device, device_created, register_device,
  delete_device,
}
use neo_nect_server.Devices.Revocation.{is_live, dead-Refused, delete_device-ok, revoked_dead}
use neo_nect_server.Devices.Runs.{Operation, register, delete, call, run_all}
use neo_nect_server.Friends.{has_user}

-- The id is a device of the user, without an active row.
record IsRevoked (device_id : String) (uid : ℕ) (t : Tables) : Type 0 where
  row : DeviceRow
  found : find (is_device device_id) t.devices ≡ some row
  owned : row.user_id ≡ uid
  dead : any (is_live device_id uid) t.devices ≡ false

revoke-dead :
    (device_id other : String) (uid by : ℕ) (rows : List DeviceRow)
    → any (is_live device_id uid) rows ≡ false
    → any (is_live device_id uid) (update (is_revocable by other) revoke rows) ≡ false
unfolding any update
revoke-dead device_id other uid by [] h = refl
revoke-dead device_id other uid by (d ∷ rows) h =
    ground (arith, revoke-dead device_id other uid by rows)

delete_device-IsRevoked :
    (device_id other : String) (uid by : ℕ)
    → Keeps (IsRevoked device_id uid) (delete_device by other)
unfolding delete_device
delete_device-IsRevoked device_id other uid by = Keeps-statement _ λ t r.
    success
      (elim (find-update (is_device device_id) (is_revocable by other) revoke t.devices r.row
        (λ d. refl) r.found) [
          | inl kept ↦ record {
            row = r.row;
            found = kept;
            owned = r.owned;
            dead = revoke-dead device_id other uid by t.devices r.dead;
          }
          | inr changed ↦ record {
            row = revoke r.row;
            found = changed;
            owned = r.owned;
            dead = revoke-dead device_id other uid by t.devices r.dead;
          }
        ])

-- An id that is taken stays with the row that it has.
insert_device-IsRevoked :
    (device_id other : String) (uid by max : ℕ) (public_key : Bytes) (t : Tables)
    → IsRevoked device_id uid t
    → After (IsRevoked device_id uid) (insert_device by other public_key max t)
unfolding insert_device any
insert_device-IsRevoked device_id other uid by max public_key t r =
    elim (Bool-cases (ltb (count (is_of by) t.devices) max)) [
      | inr full ↦ rw full (success r)
      | inl room ↦ elim (Bool-cases (any (is_device other) t.devices)) [
        | inl taken ↦ rw (room, taken) failure
        | inr free ↦ elim (Bool-cases (has_user by t)) [
          | inr unknown ↦ rw (room, free, unknown) failure
          | inl known ↦
              rw (room, free, known)
                (success (record {
                  row = r.row;
                  found = rw (find-append (is_device device_id) t.devices _, there) r.found;
                  owned = r.owned;
                  dead =
                      rw (any-append (is_live device_id uid) t.devices _, r.dead, apart free) refl;
                }))
        ]
      ]
    ]
  where
    there : any (is_device device_id) t.devices ≡ true
    there =
        any-of-find (is_device device_id) (is_device device_id) t.devices r.row r.found
          (find-holds (is_device device_id) t.devices r.row r.found)

    apart : any (is_device other) t.devices ≡ false → (other == device_id) ≡ false
    apart free = elim (Bool-cases (other == device_id)) [
      | inr ne ↦ ne
      | inl same ↦ absurd (
          let taken =
            subst (λ x. any (is_device x) t.devices ≡ true)
              (sym ((string_eq.same_iff other device_id).0 same)) there in
          cc)
    ]

register_device-IsRevoked :
    (device_id other : String) (uid by max : ℕ) (public_key : Bytes)
    → Keeps (IsRevoked device_id uid) (register_device by other public_key max)
unfolding register_device device_created
register_device-IsRevoked device_id other uid by max public_key = Keeps-transaction _ (
    Keeps-bind _ _
      (Keeps-attempt _
        (Keeps-statement _ (insert_device-IsRevoked device_id other uid by max public_key)))
      created)
  where
    created : (r : Result ℕ) → Keeps (IsRevoked device_id uid) (device_created r)
    created (err e) = Keeps-raise _
    created (ok affected) = Keeps-if _ _ _ (Keeps-raise _) (Keeps-pure tt)

run_all-IsRevoked :
    (device_id : String) (uid max : ℕ) (ops : List Operation) (w : World)
    → IsRevoked device_id uid w.tables
    → IsRevoked device_id uid (run_all max ops w).tables
unfolding run_all call
run_all-IsRevoked device_id uid max [] w r = r
run_all-IsRevoked device_id uid max (register by other public_key ∷ ops) w r =
    run_all-IsRevoked device_id uid max ops (register_device by other public_key max w).1
      ((register_device-IsRevoked device_id other uid by max public_key).at w r)
run_all-IsRevoked device_id uid max (delete by other ∷ ops) w r =
    run_all-IsRevoked device_id uid max ops (delete_device by other w).1
      ((delete_device-IsRevoked device_id other uid by).at w r)

delete_device-revokes :
    (device_id : String) (d : DeviceRow) (w : World)
    → find (is_device device_id) w.tables.devices ≡ some d
    → (delete_device d.user_id device_id w).0 ≡ ok tt
    → IsRevoked device_id d.user_id (delete_device d.user_id device_id w).1.tables
delete_device-revokes device_id d w owner done =
    let left = delete_device-ok d.user_id device_id w done in
    let gone : any (is_live device_id d.user_id)
          (delete_device d.user_id device_id w).1.tables.devices
        ≡ false =
      rw left (revoked_dead d.user_id device_id w.tables) in
    elim (find-update (is_device device_id) (is_revocable d.user_id device_id) revoke
      w.tables.devices d (λ x. refl) owner) [
        | inl kept ↦ record { row = d; found = rw left kept; owned = refl; dead = gone }
        | inr changed ↦ record {
          row = revoke d;
          found = rw left changed;
          owned = refl;
          dead = gone;
        }
      ]

-- Once `DeleteDevice` has returned without an error for the owner of a device, `SendEnvelope` to the
-- device is refused and changes no table, whoever sends and whichever driver calls fail, after any
-- further registrations and revocations by any users, on tables whose devices are those that these
-- calls left.
pub delete_device_unreachable :
    (cfg : QueueConfig) (now ttl sender max : ℕ) (e : Envelope) (d : DeviceRow)
    (ops : List Operation) (w w' : World)
    → find (is_device e.recipient_device_id) w.tables.devices ≡ some d
    → (delete_device d.user_id e.recipient_device_id w).0 ≡ ok tt
    → w'.tables.devices
      ≡ (run_all max ops (delete_device d.user_id e.recipient_device_id w).1).tables.devices
    → Refused w'.tables (send_envelope cfg now ttl sender e w')
delete_device_unreachable cfg now ttl sender max e d ops w w' owner done same =
    let r =
      run_all-IsRevoked e.recipient_device_id d.user_id max ops
        (delete_device d.user_id e.recipient_device_id w).1
        (delete_device-revokes e.recipient_device_id d w owner done) in
    dead-Refused cfg now ttl sender e r.row w' (rw same r.found) (rw (same, r.owned) r.dead)
