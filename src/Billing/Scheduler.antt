-- ===== src/Billing/Scheduler.antt =====
-- billing/scheduler.go: the boundaries of ticks, the daily sweep, and the loop of `Run`. A time is a
-- number of nanoseconds; the sleep that brings the next time, and the tick and the sweep themselves,
-- are those of the other modules and of the outside.
use arkfile.Base.{
  ℕ, ◌+◌, ◌-◌, ◌*◌, ◌/◌, Bool, false, ◌||◌, Option, none, some, List, [], ◌∷◌, ltb, leb, ◌==◌,
  if◌then◌else◌,
}

abbrev pub hour : ℕ
hour = 3600000000000

abbrev pub minute : ℕ
minute = 60000000000

abbrev pub day : ℕ
day = 86400000000000

-- `nextTickBoundary`, for an interval of 0 or more: `Truncate` rounds down to a multiple of it.
abbrev pub boundary_after : ℕ → ℕ → ℕ
boundary_after now step =
    let next = now / step * step + step in if leb next now then next + step else next

unfoldable pub next_tick_boundary : ℕ → ℕ → ℕ
next_tick_boundary now interval = boundary_after now (if interval == 0 then hour else interval)

-- `atoiTwoDigit` on two bytes. A byte below 48 gives a large one after the subtraction of '0'.
abbrev pub atoi_two_digit : ℕ → ℕ → Option ℕ
atoi_two_digit a b =
    if ltb a 48 || ltb 57 a || ltb b 48 || ltb 57 b then none else some ((a - 48) * 10 + (b - 48))

abbrev pub time_of_day : Option ℕ → Option ℕ → Option (ℕ × ℕ)
time_of_day (some h) (some m) = if ltb 23 h || ltb 59 m then none else some (h, m)
time_of_day h m = none

-- `parseHHMM` on the bytes of a text.
unfoldable pub parse_hhmm : List ℕ → Option (ℕ × ℕ)
parse_hhmm (a ∷ b ∷ c ∷ d ∷ e ∷ []) =
    if c == 58 then time_of_day (atoi_two_digit a b) (atoi_two_digit d e) else none
parse_hhmm s = none

-- The UTC date of a time, as the number of its day.
abbrev pub date_of : ℕ → ℕ
date_of now = now / day

abbrev pub is_date : Option ℕ → ℕ → Bool
is_date none today = false
is_date (some date) today = date == today

abbrev pub past_boundary : ℕ → Option (ℕ × ℕ) → Bool
past_boundary now none = false
past_boundary now (some (h, m)) = leb (date_of now * day + h * hour + m * minute) now

-- `shouldRunSweep`, with the date of the last sweep, which is empty at first.
unfoldable pub should_run_sweep : ℕ → List ℕ → Option ℕ → Bool
unfolding parse_hhmm
should_run_sweep now sweep_at last =
    if is_date last (date_of now) then false else past_boundary now (parse_hhmm sweep_at)

-- The loop of `Run` over the times at which its ticks begin: the times of its sweeps.
unfoldable pub run : List ℕ → Option ℕ → List ℕ → List ℕ
unfolding should_run_sweep
run sweep_at last [] = []
run sweep_at last (now ∷ later) =
    let swept = run sweep_at (some (date_of now)) later in
    let skipped = run sweep_at last later in
    if should_run_sweep now sweep_at last then now ∷ swept else skipped
