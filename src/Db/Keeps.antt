-- ===== src/Db/Keeps.antt =====
-- Properties of the tables that a program keeps, whichever of its driver calls fail.
use neo_nect_server.Base.{suc, ◌≡◌, inl, inr, refl, Bool, true, false, Bool-cases, if◌then◌else◌}
use neo_nect_server.Error.{Error, Result, ok, err}
use neo_nect_server.Db.{
  Tables, World, Db, pure, raise, ◌>>=◌, attempt, statement, transaction, commit, settle, continue,
}

-- From tables with `P` to tables with `P`, whether the program returns or fails.
pub record Keeps (P : Tables → Type 0) {A : Type 0} (m : Db A) : Type 0 where
  pub at : (w : World) → P w.tables → P (m w).1.tables

-- what a statement makes of the tables, if it succeeds
pub data After (P : Tables → Type 0) {A : Type 0} : Result (A × Tables) → Type 0 where
  success : {a : A} {t : Tables} → P t → After P (ok (a, t))
  failure : {e : Error} → After P (err e)

-- the world in which a transaction's body begins
abbrev start : World → World
start w = record w { calls = suc w.calls }

module _ (P : Tables → Type 0) {A : Type 0} where
  pub Keeps-settle :
      (r : Result (A × Tables)) (w : World) → P w.tables → After P r → P (settle r w).1.tables
  Keeps-settle (ok (a, t)) w h (success k) = k
  Keeps-settle (err e) w h k = h

  pub Keeps-commit :
      (before : Tables) (r : Result A) (w : World)
      → P before
      → P w.tables
      → P (commit before r w).1.tables
  Keeps-commit before (err e) w b h = b
  Keeps-commit before (ok a) w b h = elim (Bool-cases (w.fails w.calls)) [
    | inl failed ↦ rw failed b
    | inr done ↦ rw done h
  ]

module _ {P : Tables → Type 0} {A : Type 0} where
  pub Keeps-pure : (a : A) → Keeps P (pure a)
  Keeps-pure a = record { at = λ w h. h }

  pub Keeps-raise : (e : Error) → Keeps P (raise {A = A} e)
  Keeps-raise e = record { at = λ w h. h }

  pub Keeps-statement :
      (f : Tables → Result (A × Tables))
      → ((t : Tables) → P t → After P (f t))
      → Keeps P (statement f)
  unfolding statement
  Keeps-statement f k = record {
    at = λ w h. elim (Bool-cases (w.fails w.calls)) [
      | inl failed ↦ rw (failed, statement) h
      | inr answered ↦
          rw (answered, statement)
            (Keeps-settle P (f w.tables) (record w { calls = suc w.calls }) h (k w.tables h))
    ];
  }

  pub Keeps-transaction : (body : Db A) → Keeps P body → Keeps P (transaction body)
  unfolding transaction
  Keeps-transaction body k = record {
    at = λ w h. elim (Bool-cases (w.fails w.calls)) [
      | inl failed ↦ rw (failed, transaction) h
      | inr begun ↦
          rw (begun, transaction)
            (Keeps-commit P w.tables (body (start w)).0 (body (start w)).1 h (k.at (start w) h))
    ];
  }

  pub Keeps-attempt : (m : Db A) → Keeps P m → Keeps P (attempt m)
  Keeps-attempt m k = record { at = λ w h. k.at w h }

  pub Keeps-if : (b : Bool) (m n : Db A) → Keeps P m → Keeps P n → Keeps P (if b then m else n)
  Keeps-if true m n km kn = km
  Keeps-if false m n km kn = kn

module _ {P : Tables → Type 0} {A B : Type 0} where
  pub Keeps-bind :
      (m : Db A) (f : A → Db B) → Keeps P m → ((a : A) → Keeps P (f a)) → Keeps P (m >>= f)
  Keeps-bind m f km kf = record { at = λ w h. after (m w).0 (m w).1 (km.at w h) }
    where
      after : (r : Result A) (w : World) → P w.tables → P (continue r f w).1.tables
      after (ok a) w h = (kf a).at w h
      after (err e) w h = h

-- It is enough to follow the results that succeed.
pub After-of :
    {P : Tables → Type 0} {A : Type 0} (r : Result (A × Tables))
    → ((a : A) (t : Tables) → r ≡ ok (a, t) → P t)
    → After P r
After-of (ok (a, t)) k = success (k a t refl)
After-of (err e) k = failure

pub ruleset keeps_rules =
    (Keeps-pure, Keeps-raise, Keeps-attempt, Keeps-transaction, Keeps-if, Keeps-bind)
