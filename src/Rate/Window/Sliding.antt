-- ===== src/Rate/Window/Sliding.antt =====
-- The guarantee of the sliding window log: of the events it accepts, at most `limit` lie in any
-- window of the given length.
use neo_nect_server.Base.{
  ℕ, ◌+◌, ◌≤◌, ◌≡◌, refl, Bool, List, [], ◌∷◌, arith, ltb, if◌then◌else◌, length, count,
  length-append, count-append,
}
use neo_nect_server.Rate.Window.{RateWindow, fresh, prune, record_event}
use neo_nect_server.Rate.Window.Refine.{
  IsValid, contents, drop_expired, prune_refines, record_refines, fresh-IsValid,
}

-- one event of a key that has a window: the `else` branch of `Allow` and its last line
unfoldable pub allow_event : RateWindow → ℕ → ℕ → ℕ → Bool × RateWindow
allow_event win limit now window = record_event (prune win now window) now limit

-- The events at the given times in order: the accepted ones, and the window in the end.
pub serve : RateWindow → ℕ → ℕ → List ℕ → List ℕ × RateWindow
serve win limit window [] = ([], win)
serve win limit window (t ∷ ts) =
    let (admitted, win') = allow_event win limit t window in
    let (accepted, last) = serve win' limit window ts in
    ((if admitted then t ∷ accepted else accepted), last)

-- the condition of `Prune` for an event that still counts
abbrev pub is_active : ℕ → ℕ → ℕ → Bool
is_active now window t = ltb now (t + window)

abbrev pub Before : ℕ → List ℕ → Type 0
Before now [] = Unit {0}
Before now (t ∷ ts) = (t ≤ now) × Before now ts

pub count-le-length : (p : ℕ → Bool) (ts : List ℕ) → count p ts ≤ length ts
unfolding count
count-le-length p [] = omega arith
count-le-length p (t ∷ ts) = ground (arith, count-le-length p ts)

pub length-drop_expired-le :
    (now window : ℕ) (ts : List ℕ) → length (drop_expired now window ts) ≤ length ts
length-drop_expired-le now window [] = omega arith
length-drop_expired-le now window (t ∷ ts) = ground (arith, length-drop_expired-le now window ts)

-- What is dropped at a time does not count at any later time.
pub active-drop_expired :
    (fin now window : ℕ) (ts : List ℕ)
    → now ≤ fin
    → count (is_active fin window) (drop_expired now window ts) ≡ count (is_active fin window) ts
unfolding count
active-drop_expired fin now window [] h = refl
active-drop_expired fin now window (t ∷ ts) h =
    ground (arith, active-drop_expired fin now window ts h)

record Kept (win : RateWindow) (limit window fin : ℕ) (r : List ℕ × RateWindow) : Type 0 where
  bounded : length (contents r.1) ≤ limit
  active :
      count (is_active fin window) (contents win) + count (is_active fin window) r.0
      ≤ count (is_active fin window) (contents r.1)

serve-Kept :
    (win : RateWindow) (limit window fin : ℕ) (ts : List ℕ)
    → IsValid win
    → length (contents win) ≤ limit
    → Before fin ts
    → Kept win limit window fin (serve win limit window ts)
unfolding serve allow_event count
serve-Kept win limit window fin [] v b h = record { bounded = b; active = omega arith }
serve-Kept win limit window fin (t ∷ ts) v b h = ground (
  arith,
  prune_refines win t window v,
  record_refines (prune win t window) t limit,
  length-append (drop_expired t window (contents win)) (t ∷ []),
  length-drop_expired-le t window (contents win),
  active-drop_expired fin t window (contents win),
  count-append (is_active fin window) (drop_expired t window (contents win)) (t ∷ []),
  serve-Kept (allow_event win limit t window).1 limit window fin ts,
)

-- From a fresh window, whatever the calls up to a time: at most `limit` of the accepted events are
-- younger than the window at that time.
pub serve-sliding_bound :
    (limit window now : ℕ) (ts : List ℕ)
    → Before now ts
    → count (is_active now window) (serve fresh limit window ts).0 ≤ limit
serve-sliding_bound limit window now ts h =
    let k : Kept fresh limit window now (serve fresh limit window ts) =
      serve-Kept fresh limit window now ts fresh-IsValid (omega arith) h in
    omega (
      arith,
      k.active,
      k.bounded,
      count-le-length (is_active now window) (contents (serve fresh limit window ts).1),
    )
