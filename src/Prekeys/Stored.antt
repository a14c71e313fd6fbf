-- ===== src/Prekeys/Stored.antt =====
-- internal/infrastructure/persistence/prekey_manager.go: what `ClaimPrekeysIdempotent` leaves under the
-- key of a request that it answered.
use neo_nect_server.Base.{
  ◌≡◌, ap, inl, inr, Bool, Option, none, some, String, Bytes, List, [], ◌∷◌, nat_eq, string_eq,
  find, some-injective, update, Bool-cases,
}
use neo_nect_server.Error.{Result, ok, err, no_rows, Result-cases}
use neo_nect_server.Db.{
  IdempotencyRow, SignedRow, Tables, World, Db, statement, attempt, ◌>>=◌, continue,
}
use neo_nect_server.Db.Keeps.{
  Keeps, Keeps-statement, Keeps-pure, Keeps-raise, Keeps-bind, Keeps-attempt, After, success,
  failure,
}
use neo_nect_server.Prekeys.{
  consume, consume_curve, consume_pq, put_curve, put_pq, or_nil, identified, select_identity_key,
  select_signed, gather,
}

-- What holds of the value and the tables after a program that returns.
abbrev pub Returns : {A : Type 0} → (A → Tables → Type 0) → Result A × World → Type 0
Returns Q (r, w) = elim r [ ok a ↦ Q a w.tables | err _ ↦ Unit {0} ]

pub continue-Returns :
    {A B : Type 0} (Q : A → Tables → Type 0) (S : B → Tables → Type 0) (f : A → Db B) (r : Result A)
    (w : World)
    → Returns Q (r, w)
    → ((a : A) (v : World) → Q a v.tables → Returns S (f a v))
    → Returns S (continue r f w)
continue-Returns Q S f (ok a) w h k = k a w h
continue-Returns Q S f (err e) w h k = tt

pub returns :
    {A : Type 0} (P : Tables → Type 0) (r : Result A) (w : World)
    → P w.tables
    → Returns (λ _. P) (r, w)
returns P (ok a) w h = h
returns P (err e) w h = tt

-- The bundle of keys is put together without a look at the records.
module _ (P : List IdempotencyRow → Type 0) where
  consume_curve-Keeps :
      (d : String) (t : Tables) → P t.idempotency → After (λ t. P t.idempotency) (consume_curve d t)
  unfolding consume_curve
  consume_curve-Keeps d t h = elim (Result-cases (consume d t.one_time_curve)) [
    | inl ((p, rows), taken) ↦ rw (taken, put_curve) (success h)
    | inr (e, missed) ↦ rw (missed, put_curve) failure
  ]

  consume_pq-Keeps :
      (d : String) (t : Tables) → P t.idempotency → After (λ t. P t.idempotency) (consume_pq d t)
  unfolding consume_pq
  consume_pq-Keeps d t h = elim (Result-cases (consume d t.one_time_pq)) [
    | inl ((p, rows), taken) ↦ rw (taken, put_pq) (success h)
    | inr (e, missed) ↦ rw (missed, put_pq) failure
  ]

  -- a SELECT of one row
  row_selected :
      {X A : Type 0} (o : Option X) (f : X → A) (t : Tables)
      → P t.idempotency
      → After
          (λ t. P t.idempotency)
          (elim o as (λ _. Result (A × Tables)) [ none ↦ err no_rows | some x ↦ ok (f x, t) ])
  row_selected none f t h = failure
  row_selected (some x) f t h = success h

  select_identity_key-Keeps :
      (d : String) (t : Tables)
      → P t.idempotency
      → After (λ t. P t.idempotency) (select_identity_key d t)
  unfolding select_identity_key
  select_identity_key-Keeps d t h = row_selected _ (λ d. d.identity_key) t h

  select_signed-Keeps :
      (d : String) (rows : List SignedRow) (t : Tables)
      → P t.idempotency
      → After (λ t. P t.idempotency) (select_signed d rows t)
  unfolding select_signed
  select_signed-Keeps d rows t h =
      row_selected _
        (λ r. record { key_id = r.key_id; public_key = r.public_key; signature = r.signature }) t h

  or_nil-Keeps : {A : Type 0} (r : Result A) → Keeps (λ t. P t.idempotency) (or_nil r)
  unfolding or_nil
  or_nil-Keeps (ok a) = Keeps-pure _
  or_nil-Keeps (err no_rows) = Keeps-pure _
  or_nil-Keeps (err e) = Keeps-raise _

  identified-Keeps : (r : Result Bytes) → Keeps (λ t. P t.idempotency) (identified r)
  unfolding identified
  identified-Keeps (ok key) = Keeps-pure _
  identified-Keeps (err e) = Keeps-raise _

  -- A part of the bundle, with its absence as a value.
  part-Keeps :
      {A B C : Type 0} (f : Tables → Result (A × Tables)) (g : Result A → Db B) (n : B → Db C)
      → ((t : Tables) → P t.idempotency → After (λ t. P t.idempotency) (f t))
      → ((r : Result A) → Keeps (λ t. P t.idempotency) (g r))
      → ((b : B) → Keeps (λ t. P t.idempotency) (n b))
      → Keeps (λ t. P t.idempotency) (attempt (statement f) >>= λ r. g r >>= n)
  part-Keeps f g n kf kg kn =
      Keeps-bind _ _ (Keeps-attempt _ (Keeps-statement f kf)) λ r. Keeps-bind _ _ (kg r) kn

  pub gather-Keeps : (d : String) → Keeps (λ t. P t.idempotency) (gather d)
  unfolding gather
  gather-Keeps d = part-Keeps _ _ _ (consume_curve-Keeps d) or_nil-Keeps λ _.
      part-Keeps _ _ _ (consume_pq-Keeps d) or_nil-Keeps λ _.
        part-Keeps _ _ _ (select_identity_key-Keeps d) identified-Keeps λ _.
          part-Keeps _ _ _ (λ t. select_signed-Keeps d t.signed_curve t) or_nil-Keeps
            λ _.
              part-Keeps _ _ _ (λ t. select_signed-Keeps d t.signed_pq t) or_nil-Keeps
                λ _. Keeps-pure _

pub find-update_self :
    (p : IdempotencyRow → Bool) (f : IdempotencyRow → IdempotencyRow) (rows : List IdempotencyRow)
    (r : IdempotencyRow)
    → ((x : IdempotencyRow) → p (f x) ≡ p x)
    → find p rows ≡ some r
    → find p (update p f rows) ≡ some (f r)
unfolding find update
find-update_self p f [] r same h = absurd cc
find-update_self p f (x ∷ rows) r same h = elim (Bool-cases (p x)) [
  | inl here ↦
      let found : some x ≡ some r = rw here at h in
      rw (here, same x, here) (ap (λ y. some (f y)) (some-injective found))
  | inr there ↦ rw (there, there) (find-update_self p f rows r same (rw there at h))
]
