-- ===== src/Prekeys/Room.antt =====
-- internal/infrastructure/persistence/prekey_manager.go: how many one-time keys of a device are stored,
-- and room for more.
use mathlib.Core.Path.{subst}
use neo_nect_server.Base.{
  ℕ, suc, ◌+◌, ◌≤◌, inl, inr, String, List, [], ◌∷◌, arith, ◌==◌, nat_eq, beq_self, string_eq, any,
  count, count-append, Bool-cases, if◌then◌else◌,
}
use neo_nect_server.Db.{OneTimeRow, PrekeyStatus, Tables}
use neo_nect_server.Prekeys.{OneTimePrekey, is_key}
use neo_nect_server.Prekeys.Upload.{insert_one_time}

abbrev pub stored : String → List OneTimeRow → ℕ
stored device_id rows = count (λ r. r.device_id == device_id) rows

pub record IsWithinLimit (t : Tables) : Type 0 where
  pub curve : (d : String) → stored d t.one_time_curve ≤ 10000
  pub pq : (d : String) → stored d t.one_time_pq ≤ 10000

-- There is room for more keys of a device.
pub record HasRoom (d : String) (n m : ℕ) (t : Tables) : Type 0 where
  pub within : IsWithinLimit t
  pub curve : stored d t.one_time_curve + n ≤ 10000
  pub pq : stored d t.one_time_pq + m ≤ 10000

abbrev pub new_key : String → OneTimePrekey → OneTimeRow
new_key d p = record {
  device_id = d;
  key_id = p.key_id;
  public_key = p.public_key;
  status = PrekeyStatus.available;
}

pub stored-insert_one_time :
    (d e : String) (p : OneTimePrekey) (rows : List OneTimeRow)
    → stored e (insert_one_time d p rows) ≤ stored e rows + (if d == e then 1 else 0)
unfolding insert_one_time count
stored-insert_one_time d e p rows = elim (Bool-cases (any (is_key d p.key_id) rows)) [
  | inl known ↦ rw known (omega arith)
  | inr fresh ↦
      rw (fresh, count-append (λ r. r.device_id == e) rows (new_key d p ∷ [])) (ground arith)
]

-- A key more for a device that has room for it.
pub stored-limited :
    (d e : String) (n : ℕ) (p : OneTimePrekey) (rows : List OneTimeRow)
    → stored d rows + suc n ≤ 10000
    → stored e rows ≤ 10000
    → stored e (insert_one_time d p rows) ≤ 10000
stored-limited d e n p rows room h = elim (Bool-cases (d == e)) [
  | inl same ↦
      subst (λ x. stored x (insert_one_time d p rows) ≤ 10000) ((string_eq.same_iff d e).0 same)
        (ground (arith, stored-insert_one_time d d p rows))
  | inr other ↦ ground (arith, stored-insert_one_time d e p rows)
]

pub HasRoom-curve :
    (d : String) (m : ℕ) (p : OneTimePrekey) (n : ℕ) (t : Tables)
    → HasRoom d (suc n) m t
    → HasRoom d n m (record t { one_time_curve = insert_one_time d p t.one_time_curve })
HasRoom-curve d m p n t r = record {
  within = record {
    curve = λ e. stored-limited d e n p t.one_time_curve r.curve (r.within.curve e);
    pq = r.within.pq;
  };
  curve = ground (arith, stored-insert_one_time d d p t.one_time_curve, r.curve, beq_self d);
  pq = r.pq;
}

pub HasRoom-pq :
    (d : String) (m : ℕ) (p : OneTimePrekey) (n : ℕ) (t : Tables)
    → HasRoom d m (suc n) t
    → HasRoom d m n (record t { one_time_pq = insert_one_time d p t.one_time_pq })
HasRoom-pq d m p n t r = record {
  within = record {
    curve = r.within.curve;
    pq = λ e. stored-limited d e n p t.one_time_pq r.pq (r.within.pq e);
  };
  curve = r.curve;
  pq = ground (arith, stored-insert_one_time d d p t.one_time_pq, r.pq, beq_self d);
}
