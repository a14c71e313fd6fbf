-- ===== src/Devices/Revocation.antt =====
-- internal/infrastructure/persistence/device_manager.go: a device without an active row gets no
-- envelope from internal/service/relay_service.go.
use mathlib.Core.Path.{subst}
use neo_nect_server.Base.{
  ℕ, suc, ◌≡◌, refl, sym, inl, inr, Bool, false, ◌&&◌, some, String, arith, ◌==◌, nat_eq, string_eq,
  any, find, Bool-cases, any-update_self, update,
}
use neo_nect_server.Error.{
  ok, driver_failure, incomplete_envelope, recipient_device_not_found, unauthorized_sender,
}
use neo_nect_server.Db.{DeviceRow, Tables, World, Db, statement, ◌>>=◌}
use neo_nect_server.Friends.{ordered, is_friendship, check_friendship}
use neo_nect_server.Queue.{QueueConfig, Envelope}
use neo_nect_server.Relay.{
  is_active, is_active_device_owned_by_user, send_envelope, authorize, looked_up, is_incomplete,
}
use neo_nect_server.Relay.Consent.{Refused, select_device_owner-found}
use neo_nect_server.Devices.{is_device, is_revocable, revoke, delete_device}

abbrev pub is_live : String → ℕ → DeviceRow → Bool
is_live device_id uid d = d.device_id == device_id && d.user_id == uid && is_active d

-- what the statement leaves, when it succeeds
pub delete_device-ok :
    (uid : ℕ) (device_id : String) (w : World)
    → (delete_device uid device_id w).0 ≡ ok tt
    → (delete_device uid device_id w).1.tables.devices
      ≡ update (is_revocable uid device_id) revoke w.tables.devices
unfolding delete_device statement
delete_device-ok uid device_id w = elim (Bool-cases (w.fails w.calls)) [
  | inl failed ↦ rw failed (λ h. absurd cc)
  | inr answered ↦ rw answered (λ h. refl)
]

-- A program that starts with the check of an active device, where there is none.
active-Refused :
    {A : Type 0} (uid : ℕ) (device_id : String) (t : Tables) (w : World) (f : Bool → Db A)
    → w.tables ≡ t
    → any (is_live device_id uid) t.devices ≡ false
    → ((v : World) → v.tables ≡ t → Refused t (f false v))
    → Refused t ((is_active_device_owned_by_user uid device_id >>= f) w)
unfolding is_active_device_owned_by_user statement
active-Refused uid device_id t w f at dead refuse = elim (Bool-cases (w.fails w.calls)) [
  | inl failed ↦ rw failed ((driver_failure, refl), at)
  | inr answered ↦
      let dead' = subst (λ t. any (is_live device_id uid) t.devices ≡ false) (sym at) dead in
      rw (answered, dead') (refuse _ at)
]

authorize-then :
    {A : Type 0} (sender recipient : ℕ) (w : World) (f : Unit {0} → Db A)
    → ((v : World) → v.tables ≡ w.tables → Refused w.tables (f tt v))
    → Refused w.tables ((authorize sender recipient >>= f) w)
unfolding authorize check_friendship statement
authorize-then sender recipient w f refuse = elim (Bool-cases (sender == recipient)) [
  | inl own ↦ rw own (refuse w refl)
  | inr other ↦ elim (Bool-cases (w.fails w.calls)) [
    | inl failed ↦ rw (other, failed) ((driver_failure, refl), refl)
    | inr answered ↦
        elim (Bool-cases (
          any (is_friendship (ordered sender recipient).0 (ordered sender recipient).1)
            w.tables.friendships)) [
              | inl friends ↦ rw (other, answered, friends) (refuse _ refl)
              | inr strangers ↦ rw (other, answered, strangers) ((unauthorized_sender, refl), refl)
            ]
  ]
]

-- A device that has no active row is sent nothing.
pub dead-Refused :
    (cfg : QueueConfig) (now ttl sender : ℕ) (e : Envelope) (d : DeviceRow) (w : World)
    → find (is_device e.recipient_device_id) w.tables.devices ≡ some d
    → any (is_live e.recipient_device_id d.user_id) w.tables.devices ≡ false
    → Refused w.tables (send_envelope cfg now ttl sender e w)
unfolding send_envelope statement looked_up
dead-Refused cfg now ttl sender e d w owner dead = elim (Bool-cases (is_incomplete e)) [
  | inl incomplete ↦ rw incomplete ((incomplete_envelope, refl), refl)
  | inr complete ↦ elim (Bool-cases (w.fails w.calls)) [
    | inl failed ↦ rw (complete, failed) ((driver_failure, refl), refl)
    | inr answered ↦
        rw (complete, answered, select_device_owner-found e.recipient_device_id d w.tables owner)
          (authorize-then sender d.user_id (record w { calls = suc w.calls }) _
            λ v same.
              active-Refused d.user_id e.recipient_device_id w.tables v _ same dead
                (λ u same'. ((recipient_device_not_found, refl), same')))
  ]
]

pub revoked_dead :
    (uid : ℕ) (device_id : String) (t : Tables)
    → any (is_live device_id uid) (update (is_revocable uid device_id) revoke t.devices) ≡ false
revoked_dead uid device_id t =
    any-update_self (is_revocable uid device_id) revoke t.devices (λ d h. ground arith)
