-- ===== src/Prekeys/OnceOnly.antt =====
-- internal/infrastructure/persistence/prekey_manager.go: a one-time key is given out once.
use neo_nect_server.Base.{
  ℕ, ◌≡◌, ◌≢◌, refl, inl, inr, Bool, true, false, ◌&&◌, some, String, List, [], ◌∷◌, arith, ◌==◌,
  nat_eq, string_eq, any, find, find-holds, update, nat_beq_iff, Option-cases,
}
use neo_nect_server.Error.{Result, ok, err}
use neo_nect_server.Db.{OneTimeRow, Tables}
use neo_nect_server.Prekeys.{
  OneTimePrekey, is_key, is_free, lowest_free, use_up, consume, put_curve, consume_curve,
}

-- A row of the device with this key, not yet given out.
abbrev pub is_free_key : String → ℕ → OneTimeRow → Bool
is_free_key d k r = is_free d r && r.key_id == k

lowest_free-is_free :
    (d : String) (rows : List OneTimeRow) (k : ℕ)
    → lowest_free d rows ≡ some k
    → any (is_free_key d k) rows ≡ true
unfolding lowest_free any
lowest_free-is_free d [] k h = cc
lowest_free-is_free d (r ∷ rows) k h = elim (Option-cases (lowest_free d rows)) [
  | inl e ↦ ground (arith, nat_beq_iff r.key_id k)
  | inr (j, e) ↦ ground (arith, lowest_free-is_free d rows j e, nat_beq_iff r.key_id k)
]

used_up :
    (d : String) (k : ℕ) (rows : List OneTimeRow) → any (is_free_key d k) (use_up d k rows) ≡ false
unfolding any update
used_up d k [] = refl
used_up d k (r ∷ rows) = ground (arith, used_up d k rows)

consumed_key :
    (d : String) (rows rows' : List OneTimeRow) (p : OneTimePrekey)
    → consume d rows ≡ ok (p, rows')
    → (any (is_free_key d p.key_id) rows ≡ true) × (any (is_free_key d p.key_id) rows' ≡ false)
unfolding consume
consumed_key d rows rows' p h = elim (Option-cases (lowest_free d rows)) [
  | inl e ↦ ground arith
  | inr (k, e) ↦ elim (Option-cases (find (is_key d k) rows)) [
    | inl missing ↦ ground arith
    | inr (r, found) ↦ ground (
      arith,
      lowest_free-is_free d rows k e,
      used_up d k rows,
      find-holds (is_key d k) rows r found,
      nat_beq_iff r.key_id k,
    )
  ]
]

consumed_curve :
    (d : String) (t t' : Tables) (p : OneTimePrekey)
    → consume_curve d t ≡ ok (p, t')
    → (any (is_free_key d p.key_id) t.one_time_curve ≡ true)
      × (any (is_free_key d p.key_id) t'.one_time_curve ≡ false)
unfolding consume_curve
consumed_curve d t t' p h = go (consume d t.one_time_curve) refl h
  where
    go :
        (r : Result (OneTimePrekey × List OneTimeRow))
        → consume d t.one_time_curve ≡ r
        → put_curve t r ≡ ok (p, t')
        → (any (is_free_key d p.key_id) t.one_time_curve ≡ true)
          × (any (is_free_key d p.key_id) t'.one_time_curve ≡ false)
    go (err _) e k = ground arith
    go (ok (q, rows)) e k = ground (arith, consumed_key d t.one_time_curve rows q e)

-- The statement that takes a one-time curve key gives a key that stood in the table as available, and
-- run again on the tables that it left, it does not give the same key.
pub consume_curve_once :
    (d : String) (t t' t'' : Tables) (p q : OneTimePrekey)
    → consume_curve d t ≡ ok (p, t')
    → consume_curve d t' ≡ ok (q, t'')
    → (any (is_free_key d p.key_id) t.one_time_curve ≡ true) × (q.key_id ≢ p.key_id)
consume_curve_once d t t' t'' p q first second =
    let (stood, gone) = consumed_curve d t t' p first in
    let (there, _) = consumed_curve d t' t'' q second in (stood, λ same. ground arith)
