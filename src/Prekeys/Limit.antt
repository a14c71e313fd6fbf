-- ===== src/Prekeys/Limit.antt =====
-- internal/infrastructure/persistence/prekey_manager.go: an upload keeps to the limit of stored keys.
use neo_nect_server.Base.{
  ℕ, suc, ◌+◌, ◌≤◌, inl, inr, Option, none, some, String, List, [], ◌∷◌, arith, ltb, nat_eq,
  string_eq, length, Bool-cases,
}
use neo_nect_server.Error.{Result, ok, err}
use neo_nect_server.Db.{OneTimeRow, Tables, World, Db, statement, ◌>>◌, continue}
use neo_nect_server.Db.Keeps.{Keeps-transaction}
use neo_nect_server.Prekeys.{SignedPrekey, OneTimePrekey}
use neo_nect_server.Prekeys.Upload.{
  has_device, check_limit, for_device, insert_one_time, upsert_signed, put_signed, put_one_time,
  upload_in_transaction, upload_prekeys,
}
use neo_nect_server.Prekeys.Room.{stored, IsWithinLimit, HasRoom, HasRoom-curve, HasRoom-pq}

-- What holds after a program that returns, and after one that fails.
abbrev Ends : {A : Type 0} → (Tables → Type 0) → (Tables → Type 0) → Result A × World → Type 0
Ends Q R (r, w) = elim r [ ok _ ↦ Q w.tables | err _ ↦ R w.tables ]

continue-Ends :
    {A B : Type 0} (Q S R : Tables → Type 0) (f : A → Db B) (r : Result A) (w : World)
    → Ends Q R (r, w)
    → ((a : A) (v : World) → Q v.tables → Ends S R (f a v))
    → Ends S R (continue r f w)
continue-Ends Q S R f (ok a) w h k = k a w h
continue-Ends Q S R f (err e) w h k = h

check_limit-Ends :
    (P R : Tables → Type 0) (table : Tables → List OneTimeRow) (d : String)
    (ps : List OneTimePrekey) (w : World)
    → P w.tables
    → R w.tables
    → stored d (table w.tables) ≤ 10000
    → Ends (λ t. P t × (stored d (table t) + length ps ≤ 10000)) R (check_limit d table ps w)
unfolding check_limit statement
check_limit-Ends P R table d [] w p r h = (p, omega (arith, h))
check_limit-Ends P R table d (k ∷ ps) w p r h = elim (Bool-cases (w.fails w.calls)) [
  | inl failed ↦ rw failed r
  | inr answered ↦ elim (Bool-cases (ltb 10000 (stored d (table w.tables) + suc (length ps)))) [
    | inl over ↦ rw (answered, over) r
    | inr fits ↦ rw (answered, fits) (p, ground arith)
  ]
]

for_device-Ends :
    (Q R : Tables → Type 0) (d : String) (f : Tables → Tables) (w : World)
    → R w.tables
    → Q (f w.tables)
    → Ends Q R (for_device d f w)
unfolding statement
for_device-Ends Q R d f w h k = elim (Bool-cases (w.fails w.calls)) [
  | inl failed ↦ rw failed h
  | inr answered ↦ elim (Bool-cases (has_device d w.tables)) [
    | inl there ↦ rw (answered, there) k
    | inr missing ↦ rw (answered, missing) h
  ]
]

put_signed-Ends :
    (Q R : Tables → Type 0) (d : String) (f : SignedPrekey → Tables → Tables)
    (p : Option SignedPrekey) (w : World)
    → R w.tables
    → Q w.tables
    → ((q : SignedPrekey) → Q (f q w.tables))
    → Ends Q R (put_signed d f p w)
unfolding put_signed
put_signed-Ends Q R d f none w r q k = q
put_signed-Ends Q R d f (some p) w r q k = for_device-Ends Q R d (f p) w r (k p)

put_one_time-Ends :
    (Q : ℕ → Tables → Type 0) (R : Tables → Type 0) (d : String)
    (f : OneTimePrekey → Tables → Tables) (ps : List OneTimePrekey) (w : World)
    → ((n : ℕ) (t : Tables) → Q n t → R t)
    → ((p : OneTimePrekey) (n : ℕ) (t : Tables) → Q (suc n) t → Q n (f p t))
    → Q (length ps) w.tables
    → Ends (Q 0) R (put_one_time d f ps w)
unfolding put_one_time
put_one_time-Ends Q R d f [] w weaken step q = q
put_one_time-Ends Q R d f (p ∷ ps) w weaken step q =
    continue-Ends (Q (length ps)) (Q 0) R (λ _. put_one_time d f ps) (for_device d (f p) w).0
      (for_device d (f p) w).1
      (for_device-Ends (Q (length ps)) R d (f p) w (weaken _ w.tables q)
        (step p (length ps) w.tables q))
      λ _ v q'. put_one_time-Ends Q R d f ps v weaken step q'

-- The tables a program leaves, whether it returned or failed.
Ends-tables :
    {A : Type 0} (Q R : Tables → Type 0) (r : Result A) (w : World)
    → ((t : Tables) → Q t → R t)
    → Ends Q R (r, w)
    → R w.tables
Ends-tables Q R (ok a) w weaken h = weaken w.tables h
Ends-tables Q R (err e) w weaken h = h

module _ (d : String) where
  put_keys-Ends :
      (oc op : List OneTimePrekey) (w : World)
      → HasRoom d (length oc) (length op) w.tables
      → Ends (HasRoom d 0 0) IsWithinLimit (
          (do
            put_one_time d
                (λ p t. record t { one_time_curve = insert_one_time d p t.one_time_curve })
                oc
            put_one_time d (λ p t. record t { one_time_pq = insert_one_time d p t.one_time_pq }) op)
            w)
  put_keys-Ends oc op w r =
      continue-Ends (HasRoom d 0 (length op)) (HasRoom d 0 0) IsWithinLimit
        (λ _.
          put_one_time d (λ p t. record t { one_time_pq = insert_one_time d p t.one_time_pq }) op)
        (put_one_time d (λ p t. record t { one_time_curve = insert_one_time d p t.one_time_curve })
          oc w).0
        (put_one_time d (λ p t. record t { one_time_curve = insert_one_time d p t.one_time_curve })
          oc w).1
        (put_one_time-Ends (λ n. HasRoom d n (length op)) IsWithinLimit d
          (λ p t. record t { one_time_curve = insert_one_time d p t.one_time_curve }) oc w
          (λ n t q. q.within) (HasRoom-curve d (length op)) r)
        λ _ v q.
          put_one_time-Ends (HasRoom d 0) IsWithinLimit d
            (λ p t. record t { one_time_pq = insert_one_time d p t.one_time_pq }) op v
            (λ n t q. q.within) (HasRoom-pq d 0) q

  -- After both limits were checked, and whatever signed keys are stored, the keys fit.
  put_all-Ends :
      (sc : Option SignedPrekey) (oc : List OneTimePrekey) (sp : Option SignedPrekey)
      (op : List OneTimePrekey) (w : World)
      → HasRoom d (length oc) (length op) w.tables
      → Ends (HasRoom d 0 0) IsWithinLimit (
          (do
            put_signed d (λ p t. record t { signed_curve = upsert_signed d p t.signed_curve }) sc
            put_signed d (λ p t. record t { signed_pq = upsert_signed d p t.signed_pq }) sp
            put_one_time d
                (λ p t. record t { one_time_curve = insert_one_time d p t.one_time_curve })
                oc
            put_one_time d (λ p t. record t { one_time_pq = insert_one_time d p t.one_time_pq }) op)
            w)
  put_all-Ends sc oc sp op w r =
      continue-Ends (HasRoom d (length oc) (length op)) (HasRoom d 0 0) IsWithinLimit _
        (put_signed d (λ p t. record t { signed_curve = upsert_signed d p t.signed_curve }) sc w).0
        (put_signed d (λ p t. record t { signed_curve = upsert_signed d p t.signed_curve }) sc w).1
        (put_signed-Ends (HasRoom d (length oc) (length op)) IsWithinLimit d
          (λ p t. record t { signed_curve = upsert_signed d p t.signed_curve }) sc w r.within r
          (λ q. record {
            within = record { curve = r.within.curve; pq = r.within.pq };
            curve = r.curve;
            pq = r.pq;
          }))
        λ _ v s.
          continue-Ends (HasRoom d (length oc) (length op)) (HasRoom d 0 0) IsWithinLimit _
            (put_signed d (λ p t. record t { signed_pq = upsert_signed d p t.signed_pq }) sp v).0
            (put_signed d (λ p t. record t { signed_pq = upsert_signed d p t.signed_pq }) sp v).1
            (put_signed-Ends (HasRoom d (length oc) (length op)) IsWithinLimit d
              (λ p t. record t { signed_pq = upsert_signed d p t.signed_pq }) sp v s.within s
              (λ q. record {
                within = record { curve = s.within.curve; pq = s.within.pq };
                curve = s.curve;
                pq = s.pq;
              }))
            λ _ u s'. put_keys-Ends oc op u s'

  upload-Ends :
      (sc : Option SignedPrekey) (oc : List OneTimePrekey) (sp : Option SignedPrekey)
      (op : List OneTimePrekey) (w : World)
      → IsWithinLimit w.tables
      → Ends (HasRoom d 0 0) IsWithinLimit (upload_in_transaction d sc oc sp op w)
  unfolding upload_in_transaction
  upload-Ends sc oc sp op w h =
      continue-Ends (λ t. IsWithinLimit t × (stored d t.one_time_curve + length oc ≤ 10000))
        (HasRoom d 0 0) IsWithinLimit _ (check_limit d (λ t. t.one_time_curve) oc w).0
        (check_limit d (λ t. t.one_time_curve) oc w).1
        (check_limit-Ends IsWithinLimit IsWithinLimit (λ t. t.one_time_curve) d oc w h h
          (h.curve d))
        λ _ v (g, room).
          continue-Ends
            (λ t.
              (IsWithinLimit t × (stored d t.one_time_curve + length oc ≤ 10000))
              × (stored d t.one_time_pq + length op ≤ 10000))
            (HasRoom d 0 0) IsWithinLimit _ (check_limit d (λ t. t.one_time_pq) op v).0
            (check_limit d (λ t. t.one_time_pq) op v).1
            (check_limit-Ends
              (λ t. IsWithinLimit t × (stored d t.one_time_curve + length oc ≤ 10000)) IsWithinLimit
              (λ t. t.one_time_pq) d op v (g, room) g (g.pq d))
            λ _ u ((g', room'), more).
              put_all-Ends sc oc sp op u (record { within = g'; curve = room'; pq = more })

-- `UploadPrekeys` never takes the curve keys or the post-quantum keys stored of a device, of this one
-- or of another, beyond 10000, whichever driver calls fail.
pub upload_prekeys-IsWithinLimit :
    (d : String) (sc : Option SignedPrekey) (oc : List OneTimePrekey) (sp : Option SignedPrekey)
    (op : List OneTimePrekey) (w : World)
    → IsWithinLimit w.tables
    → IsWithinLimit (upload_prekeys d sc oc sp op w).1.tables
unfolding upload_prekeys
upload_prekeys-IsWithinLimit d sc oc sp op w h =
    (Keeps-transaction (upload_in_transaction d sc oc sp op) (record {
      at = λ v g.
          Ends-tables (HasRoom d 0 0) IsWithinLimit (upload_in_transaction d sc oc sp op v).0
            (upload_in_transaction d sc oc sp op v).1 (λ t r. r.within)
            (upload-Ends d sc oc sp op v g);
    })).at
      w h
