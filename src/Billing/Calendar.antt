-- ===== src/Billing/Calendar.antt =====
-- The scheduler's ticks are aligned, and it sweeps at most once a day.
use native.Mathlib.Decide.{ℕ_discrete}
use native.Mathlib.Nat.{
  lt-div-mul-add, div-mul-le_self, mod-mod_of_dvd, dvd_of_mod-eq-zero, mul-mod_left,
}
use arkfile.Base.{
  Bool-cases, ℕ, ◌+◌, ◌*◌, ◌/◌, ◌≡◌, ◌≤◌, ◌<◌, ap, ◌∙◌, inl, inr, true, Option, none, some, List,
  [], ◌∷◌, ◌%◌, ◌≢◌, ◌⊎◌, leb, ◌==◌, if◌then◌else◌, All, arith,
}
use arkfile.Billing.Scheduler.{
  boundary_after, hour, day, next_tick_boundary, date_of, should_run_sweep, run,
}

positive_step :
    (interval : ℕ) → 0 < interval → (if interval == 0 then hour else interval) ≡ interval
positive_step interval p = ground arith

not_before : (now next other : ℕ) → now < next → (if leb next now then other else next) ≡ next
not_before now next other h = ground arith

-- A multiple of an interval that divides the day is one since the midnight before it.
aligned_at_midnight :
    (next interval k : ℕ) → next ≡ k * interval → (day % interval ≢ 0) ⊎ (next % day % interval ≡ 0)
aligned_at_midnight next interval k e = elim (ℕ_discrete (day % interval) 0) [
  | yes divides ↦ inr (
      mod-mod_of_dvd interval next (dvd_of_mod-eq-zero interval divides)
      ∙ ap (λ n. n % interval) e
      ∙ mul-mod_left k interval)
  | no odd ↦ inl odd
]

-- For a positive interval, the next tick is later than now, by at most the interval, and a multiple
-- of the interval since the origin of time. If the interval divides the day, the tick is also a
-- multiple of the interval since the UTC midnight before it.
pub next_tick_boundary-le :
    (now interval : ℕ)
    → 0 < interval
    → (now < next_tick_boundary now interval)
      × (next_tick_boundary now interval ≤ now + interval)
      × ((k : ℕ) × (next_tick_boundary now interval ≡ k * interval))
      × ((day % interval ≢ 0) ⊎ (next_tick_boundary now interval % day % interval ≡ 0))
unfolding next_tick_boundary
next_tick_boundary-le now interval p =
    let below : now / interval * interval ≤ now = div-mul-le_self now interval in
    let above : now < now / interval * interval + interval = lt-div-mul-add p in
    let is : boundary_after now (if interval == 0 then hour else interval)
        ≡ now / interval * interval + interval =
      ap (boundary_after now) (positive_step interval p)
      ∙ not_before now (now / interval * interval + interval)
          (now / interval * interval + interval + interval) above in
    let multiple : now / interval * interval + interval ≡ (now / interval + 1) * interval =
      omega arith in
    rw (is) (
      (omega (arith, above)),
      (omega (arith, below)),
      (now / interval + 1, multiple),
      aligned_at_midnight (now / interval * interval + interval) interval (now / interval + 1)
          multiple,
    )

-- Times that do not go back.
abbrev pub Ascending : ℕ → List ℕ → Type 0
Ascending from [] = Unit
Ascending from (t ∷ rest) = (from ≤ t) × Ascending t rest

-- The days of the times increase.
abbrev pub AreOnLaterDays : List ℕ → Type 0
AreOnLaterDays [] = Unit
AreOnLaterDays (t ∷ rest) =
    All (λ u. t / 86400000000000 < u / 86400000000000) rest × AreOnLaterDays rest

-- The last sweep was on an earlier day than the times that follow, or on the same.
abbrev IsSince : Option ℕ → ℕ → Type 0
IsSince none from = Unit
IsSince (some date) from = date ≤ date_of from

-- The sweeps that follow are on later days than the last.
abbrev AreAfter : Option ℕ → List ℕ → Type 0
AreAfter none times = Unit
AreAfter (some date) times = All (λ u. date < u / 86400000000000) times

-- What a run from a time on does, after a last sweep.
abbrev IsDaily : Option ℕ → List ℕ → Type 0
IsDaily last times = AreAfter last times × AreOnLaterDays times

All-later :
    (from to : ℕ) (times : List ℕ)
    → from ≤ to
    → All (λ u. to < u / 86400000000000) times
    → All (λ u. from < u / 86400000000000) times
All-later from to [] h all = tt
All-later from to (t ∷ rest) h (first, all) = (omega arith, All-later from to rest h all)

IsSince-later : (last : Option ℕ) (from to : ℕ) → from ≤ to → IsSince last from → IsSince last to
IsSince-later none from to h s = tt
IsSince-later (some date) from to h s = omega arith

-- A sweep now, and those after it.
swept_now :
    (sweep_at : List ℕ) (last : Option ℕ) (now : ℕ) (later : List ℕ)
    → IsSince last now
    → should_run_sweep now sweep_at last ≡ true
    → IsDaily (some (date_of now)) later
    → IsDaily last (now ∷ later)
unfolding should_run_sweep
swept_now sweep_at none now later since sweeps (after, days) = (tt, (after, days))
swept_now sweep_at (some date) now later since sweeps (after, days) =
    let newer : date < now / 86400000000000 = ground arith in
    ((newer, All-later date (now / 86400000000000) later (omega arith) after), (after, days))

run-IsDaily :
    (sweep_at : List ℕ) (last : Option ℕ) (from : ℕ) (times : List ℕ)
    → IsSince last from
    → Ascending from times
    → IsDaily last (run sweep_at last times)
unfolding run
run-IsDaily sweep_at none from [] since asc = (tt, tt)
run-IsDaily sweep_at (some date) from [] since asc = (tt, tt)
run-IsDaily sweep_at last from (now ∷ later) since (h, asc) =
    elim (Bool-cases (should_run_sweep now sweep_at last)) [
      | inl sweeps ↦ rw (sweeps) (
          swept_now sweep_at last now (run sweep_at (some (date_of now)) later)
            (IsSince-later last from now h since) sweeps
            (run-IsDaily sweep_at (some (date_of now)) now later (omega arith) asc))
      | inr skips ↦
          rw (skips) (run-IsDaily sweep_at last now later (IsSince-later last from now h since) asc)
    ]

-- Over ticks whose times do not go back, the scheduler's loop sweeps at most once on each UTC day,
-- and on later and later days.
pub run-AreOnLaterDays :
    (sweep_at : List ℕ) (from : ℕ) (times : List ℕ)
    → Ascending from times
    → AreOnLaterDays (run sweep_at none times)
run-AreOnLaterDays sweep_at from times asc = (run-IsDaily sweep_at none from times tt asc).1
