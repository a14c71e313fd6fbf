-- ===== src/Devices/Registry.antt =====
-- internal/infrastructure/persistence/device_manager.go: what the registry of devices keeps to.
use mathlib.Core.Path.{subst}
use neo_nect_server.Base.{
  ℕ, ◌≤◌, ◌≡◌, refl, inl, inr, Bool, true, false, String, Bytes, List, [], ◌∷◌, ◌++◌, arith, ltb,
  ◌==◌, nat_eq, nat_beq_iff, string_eq, Bool-cases, any, count, filter, map, count-append,
  any-count, any-of-count, beq_self, count-update,
}
use neo_nect_server.Error.{Result, ok, err}
use neo_nect_server.Db.{DeviceRow, Tables}
use neo_nect_server.Db.Keeps.{
  Keeps, After, success, failure, Keeps-statement, Keeps-attempt, Keeps-transaction, Keeps-bind,
  Keeps-if, Keeps-pure, Keeps-raise,
}
use neo_nect_server.Friends.{has_user}
use neo_nect_server.Queue.FanQuota.{IsDistinct}
use neo_nect_server.Devices.{
  is_device, is_of, insert_device, device_created, register_device, delete_device, is_revocable,
  revoke,
}

-- No device id stands twice, and no user has more devices than the limit, revoked ones counted.
pub record IsRegistry (max_devices : ℕ) (t : Tables) : Type 0 where
  pub unique : (device_id : String) → count (is_device device_id) t.devices ≤ 1
  pub limited : (uid : ℕ) → count (is_of uid) t.devices ≤ max_devices

count-snoc_unique :
    (device_id : String) (d : DeviceRow) (rows : List DeviceRow)
    → any (is_device d.device_id) rows ≡ false
    → count (is_device device_id) rows ≤ 1
    → count (is_device device_id) (rows ++ (d ∷ [])) ≤ 1
unfolding count
count-snoc_unique device_id d rows free one = elim (Bool-cases (is_device device_id d)) [
  | inl same ↦
      subst (λ x. count (is_device x) (rows ++ (d ∷ [])) ≤ 1)
        ((string_eq.same_iff d.device_id device_id).0 same)
        (ground (
          arith,
          count-append (is_device d.device_id) rows (d ∷ []),
          any-count (is_device d.device_id) rows free,
        ))
  | inr other ↦ ground (arith, count-append (is_device device_id) rows (d ∷ []))
]

count-snoc_limited :
    (uid max : ℕ) (d : DeviceRow) (rows : List DeviceRow)
    → ltb (count (is_of d.user_id) rows) max ≡ true
    → count (is_of uid) rows ≤ max
    → count (is_of uid) (rows ++ (d ∷ [])) ≤ max
unfolding count
count-snoc_limited uid max d rows room limited = elim (Bool-cases (is_of uid d)) [
  | inl same ↦
      subst (λ x. count (is_of x) (rows ++ (d ∷ [])) ≤ max) ((nat_beq_iff d.user_id uid).0 same)
        (ground (arith, count-append (is_of d.user_id) rows (d ∷ [])))
  | inr other ↦ ground (arith, count-append (is_of uid) rows (d ∷ []))
]

insert_device-IsRegistry :
    (uid : ℕ) (device_id : String) (public_key : Bytes) (max : ℕ) (t : Tables)
    → IsRegistry max t
    → After (IsRegistry max) (insert_device uid device_id public_key max t)
unfolding insert_device
insert_device-IsRegistry uid device_id public_key max t r =
    elim (Bool-cases (ltb (count (is_of uid) t.devices) max)) [
      | inr full ↦ rw full (success r)
      | inl room ↦ elim (Bool-cases (any (is_device device_id) t.devices)) [
        | inl taken ↦ rw (room, taken) failure
        | inr free ↦ elim (Bool-cases (has_user uid t)) [
          | inr unknown ↦ rw (room, free, unknown) failure
          | inl known ↦
              rw (room, free, known)
                (success (record {
                  unique = λ d. count-snoc_unique d _ t.devices free (r.unique d);
                  limited = λ u. count-snoc_limited u max _ t.devices room (r.limited u);
                }))
        ]
      ]
    ]

-- `RegisterDevice` and `DeleteDevice` keep to the registry, whichever driver calls fail.
pub register_device-IsRegistry :
    (uid : ℕ) (device_id : String) (public_key : Bytes) (max : ℕ)
    → Keeps (IsRegistry max) (register_device uid device_id public_key max)
unfolding register_device device_created
register_device-IsRegistry uid device_id public_key max = Keeps-transaction _ (
    Keeps-bind _ _
      (Keeps-attempt _ (Keeps-statement _ (insert_device-IsRegistry uid device_id public_key max)))
      created)
  where
    created : (r : Result ℕ) → Keeps (IsRegistry max) (device_created r)
    created (err e) = Keeps-raise _
    created (ok affected) = Keeps-if _ _ _ (Keeps-raise _) (Keeps-pure tt)

pub delete_device-IsRegistry :
    (uid : ℕ) (device_id : String) (max : ℕ) → Keeps (IsRegistry max) (delete_device uid device_id)
unfolding delete_device
delete_device-IsRegistry uid device_id max = Keeps-statement _ λ t r. success (record {
  unique = λ d.
      rw (count-update (is_device d) (is_revocable uid device_id) revoke t.devices (λ a. refl))
        (r.unique d);
  limited = λ u.
      rw (count-update (is_of u) (is_revocable uid device_id) revoke t.devices (λ a. refl))
        (r.limited u);
})

-- The devices of a user, as `GetDevicesByUser` lists them, stand once each.
listed_once :
    (device_id : String) (p : DeviceRow → Bool) (rows : List DeviceRow)
    → any (is_device device_id) rows ≡ false
    → any (λ x. x == device_id) (map (λ d. d.device_id) (filter p rows)) ≡ false
unfolding any filter
listed_once device_id p [] free = refl
listed_once device_id p (d ∷ rows) free = ground (arith, listed_once device_id p rows)

pub listed-IsDistinct :
    (p : DeviceRow → Bool) (rows : List DeviceRow)
    → ((device_id : String) → count (is_device device_id) rows ≤ 1)
    → IsDistinct (map (λ d. d.device_id) (filter p rows))
unfolding any filter count
listed-IsDistinct p [] unique = tt
listed-IsDistinct p (d ∷ rows) unique =
    let rest = listed-IsDistinct p rows (λ x. ground (arith, unique x)) in
    let once =
      any-of-count (is_device d.device_id) rows
        (ground (arith, unique d.device_id, beq_self d.device_id)) in
    elim (Bool-cases (p d)) [
      | inl listed ↦ rw listed (listed_once d.device_id p rows once, rest)
      | inr skipped ↦ rw skipped rest
    ]
