-- ===== src/FloodGuard/Examples.antt =====
-- The flood guard's theorems at concrete trackers and requests.
use arkfile.Base.{All, List, ℕ, ◌≡◌, refl, true, false, [], ◌∷◌, arith}
use arkfile.Base.Table.{lookup}
use arkfile.FloodGuard.{
  FloodTracker, Trackers, fresh, hit, is_blocked, record_unauthorized_hit, middleware, cleanup,
  http_error, tier_for_hits, penalty_for_tier,
}
use arkfile.FloodGuard.Bounds.{IsValid}
use arkfile.FloodGuard.Escalation.{hit_penalty_of_count, run_hits, IsInWindow}
use arkfile.FloodGuard.Isolation.{middleware-keeps_block, AreValid}
use arkfile.FloodGuard.Cleanup.{cleanup_invisible}

-- Nine hits are counted: the next one reaches the first tier.
abbrev nine : FloodTracker
nine = record { window_hits = 9; peak_tier = 0; first_hit = 100; last_hit = 108; penalty_until = 0 }

-- A tracker at the third tier, with a block that ends at 120,000,000,500.
abbrev third : FloodTracker
third = record {
  window_hits = 45;
  peak_tier = 3;
  first_hit = 100;
  last_hit = 500;
  penalty_until = 120000000500;
}

third-IsValid : IsValid third
unfolding tier_for_hits penalty_for_tier
third-IsValid = record {
  counted = omega arith;
  peak_capped = omega arith;
  peak_covers = omega arith;
  in_order = omega arith;
  penalty_capped = omega arith;
}

abbrev nine_times : List ℕ
nine_times = 100 ∷ 101 ∷ 102 ∷ 103 ∷ 104 ∷ 105 ∷ 106 ∷ 107 ∷ 108 ∷ []

nine_times-IsInWindow : All (IsInWindow 100) nine_times
nine_times-IsInWindow = ground arith

hit_penalty_of_count_example : (hit (run_hits (fresh 100) nine_times) 300).1 ≡ 5000000000
unfolding penalty_for_tier tier_for_hits
hit_penalty_of_count_example =
    hit_penalty_of_count 100 nine_times 300 nine_times-IsInWindow (omega arith, omega arith)

abbrev one_tracker : Trackers
one_tracker = ("ada", third) ∷ []

one_tracker-AreValid : AreValid one_tracker 600
unfolding lookup
one_tracker-AreValid k t e = ground (arith, third-IsValid)

middleware-keeps_block_example :
    (is_blocked (middleware one_tracker "/x" "ada" false (http_error 404) 550 600).0 "ada" 700).0
    ≡ true
unfolding is_blocked lookup
middleware-keeps_block_example =
    middleware-keeps_block one_tracker "/x" "ada" "ada" false (http_error 404) 550 600 700
      one_tracker-AreValid refl

cleanup_invisible_example :
    (is_blocked (cleanup one_tracker 600) "ada" 700 ≡ is_blocked one_tracker "ada" 700)
    × ((record_unauthorized_hit (cleanup one_tracker 600) "ada" 700).1
        ≡ (record_unauthorized_hit one_tracker "ada" 700).1)
unfolding lookup
cleanup_invisible_example =
    cleanup_invisible one_tracker "ada" 600 700 (refl, tt) (λ t e. ground (arith, third-IsValid))
      (omega arith)
