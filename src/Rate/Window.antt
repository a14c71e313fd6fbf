-- ===== src/Rate/Window.antt =====
-- internal/api/rate_limiter.go, `RateWindow`: a ring buffer of the times of the accepted events.
-- A `time.Time` is a number of nanoseconds, and `time.Time{}` is 0. `now.Sub(ts) < window` is the
-- test `now < ts + window`, which is the same over the integers. A read out of range, where Go
-- panics, is 0 here; `Rate.Window.Ring` shows that no read of a well-formed window is one.
pub mod Ring
pub mod Refine
pub mod Sliding
use neo_nect_server.Base.{
  ℕ, zero, suc, ◌+◌, ◌*◌, ◌%◌, Bool, true, false, ◌&&◌, List, [], ◌∷◌, ltb, leb, ◌==◌, nat_eq,
  if◌then◌else◌, length, get_or, set, replicate,
}

pub record RateWindow : Type 0 where
  pub timestamps : List ℕ
  pub head : ℕ
  pub count : ℕ

-- `&RateWindow{}`
abbrev pub fresh : RateWindow
fresh = record { timestamps = []; head = 0; count = 0 }

-- the loop of `Prune`, over `rw.head` and `rw.count`
prune_loop : List ℕ → ℕ → ℕ → ℕ → ℕ → ℕ × ℕ
prune_loop timestamps now window head zero = (head, zero)
prune_loop timestamps now window head (suc count) =
    let rest = prune_loop timestamps now window ((head + 1) % length timestamps) count in
    if ltb now (get_or timestamps head 0 + window) then (head, suc count) else rest

unfoldable pub prune : RateWindow → ℕ → ℕ → RateWindow
unfolding prune_loop
prune win now window =
    let (head, count) = prune_loop win.timestamps now window win.head win.count in
    record win { head = head; count = count }

-- the loop that copies the live entries to the front of a larger buffer: rounds left, then `i`
unfoldable pub copy_loop : List ℕ → ℕ → ℕ → ℕ → List ℕ → List ℕ
copy_loop timestamps head zero i new_ts = new_ts
copy_loop timestamps head (suc rounds) i new_ts =
    copy_loop timestamps head rounds (i + 1)
      (set new_ts i (get_or timestamps ((head + i) % length timestamps) 0))

-- the two allocations of `Record`
unfoldable pub reserve : RateWindow → ℕ → RateWindow
reserve win limit =
    if length win.timestamps == 0
    then record win { timestamps = replicate (if ltb limit 4 then limit else 4) 0; head = 0 }
    else if win.count == length win.timestamps && ltb (length win.timestamps) limit
    then (let doubled = length win.timestamps * 2 in
        let new_cap = if ltb limit doubled then limit else doubled in
        record win {
          timestamps = copy_loop win.timestamps win.head win.count 0 (replicate new_cap 0);
          head = 0;
        })
    else win

-- the write at the tail
unfoldable pub append_at : RateWindow → ℕ → RateWindow
append_at win now = record win {
  timestamps = set win.timestamps ((win.head + win.count) % length win.timestamps) now;
  count = win.count + 1;
}

-- `Record`
unfoldable pub record_event : RateWindow → ℕ → ℕ → Bool × RateWindow
record_event win now limit =
    if leb limit win.count then (false, win) else (true, append_at (reserve win limit) now)
