-- ===== src/Relay/Consent.antt =====
-- internal/service/relay_service.go: nobody but a friend, or the user's own device, reaches a mailbox.
use neo_nect_server.Base.{
  ℕ, suc, ◌≡◌, refl, inl, inr, false, some, String, ◌==◌, nat_eq, string_eq, any, find, Bool-cases,
}
use neo_nect_server.Error.{
  Error, Result, ok, err, unauthorized_sender, incomplete_envelope, driver_failure,
}
use neo_nect_server.Db.{DeviceRow, Tables, World, Db, statement, ◌>>=◌}
use neo_nect_server.Friends.{ordered, is_friendship, check_friendship}
use neo_nect_server.Queue.{QueueConfig, Envelope}
use neo_nect_server.Relay.{send_envelope, authorize, select_device_owner, looked_up, is_incomplete}

-- An error, and the tables as they were.
abbrev pub Refused : {A : Type 0} → Tables → Result A × World → Type 0
Refused t r = ((x : Error) × (r.0 ≡ err x)) × (r.1.tables ≡ t)

authorize_refuses :
    {A : Type 0} (sender recipient : ℕ) (w : World) (f : Unit {0} → Db A)
    → (sender == recipient) ≡ false
    → any
        (is_friendship (ordered sender recipient).0 (ordered sender recipient).1)
        w.tables.friendships
      ≡ false
    → Refused w.tables ((authorize sender recipient >>= f) w)
unfolding authorize check_friendship statement
authorize_refuses sender recipient w f other strangers = elim (Bool-cases (w.fails w.calls)) [
  | inl failed ↦ rw (other, failed) ((driver_failure, refl), refl)
  | inr answered ↦ rw (other, answered, strangers) ((unauthorized_sender, refl), refl)
]

pub select_device_owner-found :
    (device_id : String) (d : DeviceRow) (t : Tables)
    → find (λ x. x.device_id == device_id) t.devices ≡ some d
    → select_device_owner device_id t ≡ ok (d.user_id, t)
unfolding select_device_owner
select_device_owner-found device_id d t owner = rw (owner, select_device_owner)

-- `SendEnvelope` to a device of another user who is not a friend of the sender is refused, and neither
-- the queue nor any other table changes, whichever driver calls fail.
pub send_envelope_refused :
    (cfg : QueueConfig) (now ttl sender : ℕ) (e : Envelope) (d : DeviceRow) (w : World)
    → find (λ x. x.device_id == e.recipient_device_id) w.tables.devices ≡ some d
    → (sender == d.user_id) ≡ false
    → any
        (is_friendship (ordered sender d.user_id).0 (ordered sender d.user_id).1)
        w.tables.friendships
      ≡ false
    → ((x : Error) × ((send_envelope cfg now ttl sender e w).0 ≡ err x))
      × ((send_envelope cfg now ttl sender e w).1.tables ≡ w.tables)
unfolding send_envelope statement looked_up
send_envelope_refused cfg now ttl sender e d w owner other strangers =
    elim (Bool-cases (is_incomplete e)) [
      | inl incomplete ↦ rw incomplete ((incomplete_envelope, refl), refl)
      | inr complete ↦ elim (Bool-cases (w.fails w.calls)) [
        | inl failed ↦ rw (complete, failed) ((driver_failure, refl), refl)
        | inr answered ↦
            rw
              (complete, answered, select_device_owner-found e.recipient_device_id d w.tables owner)
              (authorize_refuses sender d.user_id (record w { calls = suc w.calls }) _ other
                strangers)
      ]
    ]
