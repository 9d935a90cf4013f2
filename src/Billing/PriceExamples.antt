-- ===== src/Billing/PriceExamples.antt =====
-- Tests of the price and of the scheduler at concrete inputs.
use arkfile.Base.{
  ℕ, ◌+◌, ◌*◌, ◌%◌, ◌⊎◌, ◌≢◌, ◌≡◌, ◌≤◌, ◌<◌, refl, false, none, List, [], ◌∷◌, arith,
}
use arkfile.Base.Int.{pos, quot64, wrap64}
use arkfile.Money.{
  ok, parse_credits_from_usd, parse_amount, scan_decimal, split_dot, microcents, trim_space,
  trim_left, trim_right,
}
use arkfile.Billing.Meter.{Rate}
use arkfile.Billing.Rates.{
  PriceState, priced, compute_rate, finalize_rate, resolve_rate, set_customer_price,
  hardcoded_safety_price,
}
use arkfile.Billing.PriceLaws.{compute_rate-floor, set_customer_price-resolve_rate}
use arkfile.Billing.Scheduler.{hour, day, next_tick_boundary, parse_hhmm, should_run_sweep, run}
use arkfile.Billing.Calendar.{next_tick_boundary-le, AreOnLaterDays, run-AreOnLaterDays}

abbrev ten_dollars : Rate
ten_dollars = record {
  microcents_per_gib_per_hour = pos 1356;
  customer_price_usd_per_tb_per_month = hardcoded_safety_price;
}

parsed : parse_credits_from_usd (trim_space hardcoded_safety_price) ≡ ok (pos 1000000000)
unfolding parse_credits_from_usd parse_amount scan_decimal split_dot microcents trim_space trim_left
    trim_right wrap64
parsed = refl

computed : compute_rate hardcoded_safety_price ≡ priced ten_dollars
unfolding compute_rate quot64 parse_credits_from_usd parse_amount scan_decimal split_dot microcents
    trim_space trim_left trim_right
computed = refl

compute_rate-floor_example :
    (r : ℕ) × (pos 1356 ≡ pos r) × (r * 737280 ≤ 1000000000) × (1000000000 < r * 737280 + 737280)
compute_rate-floor_example =
    compute_rate-floor hardcoded_safety_price 1000000000 ten_dollars parsed computed

abbrev unset : PriceState
unset = record { setting = none; cached_rate = none }

set_there : (set_customer_price false hardcoded_safety_price unset).1 ≡ priced ten_dollars
unfolding set_customer_price finalize_rate compute_rate quot64 parse_credits_from_usd parse_amount
    scan_decimal split_dot microcents trim_space trim_left trim_right
set_there = refl

set_customer_price-resolve_rate_example :
    (resolve_rate false [] (set_customer_price false hardcoded_safety_price unset).0).1
    ≡ priced ten_dollars
set_customer_price-resolve_rate_example =
    set_customer_price-resolve_rate hardcoded_safety_price [] false unset ten_dollars set_there

-- At 22 o'clock of the first day, with an interval of 7 hours, the next tick is at 4 o'clock, which
-- is no multiple of 7 hours since midnight.
seven_hours : next_tick_boundary (22 * hour) (7 * hour) ≡ day + 4 * hour
unfolding next_tick_boundary
seven_hours = refl

next_tick_boundary-le_example :
    (22 * hour + 5 < next_tick_boundary (22 * hour + 5) (8 * hour))
    × (next_tick_boundary (22 * hour + 5) (8 * hour) ≤ 22 * hour + 5 + 8 * hour)
    × ((k : ℕ) × (next_tick_boundary (22 * hour + 5) (8 * hour) ≡ k * (8 * hour)))
    × ((day % (8 * hour) ≢ 0)
        ⊎ (next_tick_boundary (22 * hour + 5) (8 * hour) % day % (8 * hour) ≡ 0))
next_tick_boundary-le_example = next_tick_boundary-le (22 * hour + 5) (8 * hour) (omega arith)

-- "00:15"
abbrev quarter_past : List ℕ
quarter_past = 48 ∷ 48 ∷ 58 ∷ 49 ∷ 53 ∷ []

-- Midnight, one and two o'clock of one day, and one o'clock of the next.
abbrev times : List ℕ
times = 0 ∷ 3600000000000 ∷ 7200000000000 ∷ 90000000000000 ∷ []

sweeps : run quarter_past none times ≡ 3600000000000 ∷ 90000000000000 ∷ []
unfolding run should_run_sweep parse_hhmm
sweeps = refl

run-AreOnLaterDays_example : AreOnLaterDays (run quarter_past none times)
run-AreOnLaterDays_example =
    run-AreOnLaterDays quarter_past 0 times
      (omega arith, (omega arith, (omega arith, (omega arith, tt))))
