-- ===== src/FloodGuard/Escalation.antt =====
-- The penalties of handlers/flood_guard.go while hits fall into one window.
use arkfile.Base.{ℕ, suc, ◌+◌, ◌≤◌, ◌≡◌, refl, List, [], ◌∷◌, arith, length, All}
use native.Mathlib.Nat.{add-zero, zero-add}
use arkfile.FloodGuard.{
  FloodTracker, flood_window, tier_for_hits, penalty_for_tier, fresh, roll_window, count_hit, hit,
}
use arkfile.FloodGuard.Bounds.{tier_for_hits_mono}

-- The tracker of an entity that is hit at each of the times, in order.
abbrev pub run_hits : FloodTracker → List ℕ → FloodTracker
run_hits t [] = t
run_hits t (now ∷ times) = run_hits (hit t now).0 times

abbrev pub IsInWindow : ℕ → ℕ → Type 0
IsInWindow start now = (start ≤ now) × (now ≤ start + flood_window)

-- A tracker whose only window is the current one.
record IsCounting (start n : ℕ) (t : FloodTracker) : Type 0 where
  started : t.first_hit ≡ start
  hits : t.window_hits ≡ n
  peak : t.peak_tier ≡ tier_for_hits n

penalty_zero : penalty_for_tier 0 ≡ 0
unfolding penalty_for_tier
penalty_zero = refl

count_hit-IsCounting :
    (start n : ℕ) (t : FloodTracker) (now : ℕ)
    → IsCounting start n t
    → IsCounting start (n + 1) (count_hit t now).0
      × ((count_hit t now).1 ≡ penalty_for_tier (tier_for_hits (n + 1)))
unfolding count_hit
count_hit-IsCounting start n t now c = ground (arith, tier_for_hits_mono n (n + 1), penalty_zero)

roll_window-same :
    (start n : ℕ) (t : FloodTracker) (now : ℕ)
    → IsCounting start n t
    → IsInWindow start now
    → roll_window t now ≡ t
unfolding roll_window
roll_window-same start n t now c w = ground arith

hit-IsCounting :
    (start n : ℕ) (t : FloodTracker) (now : ℕ)
    → IsCounting start n t
    → IsInWindow start now
    → IsCounting start (n + 1) (hit t now).0
      × ((hit t now).1 ≡ penalty_for_tier (tier_for_hits (n + 1)))
unfolding hit
hit-IsCounting start n t now c w =
    rw (roll_window-same start n t now c w) (count_hit-IsCounting start n t now c)

run_hits-IsCounting :
    (start n : ℕ) (t : FloodTracker) (times : List ℕ)
    → IsCounting start n t
    → All (IsInWindow start) times
    → IsCounting start (n + length times) (run_hits t times)
run_hits-IsCounting start n t [] c w = rw (add-zero n) c
run_hits-IsCounting start n t (now ∷ times) c w =
    let count : n + 1 + length times ≡ n + suc (length times) = omega arith in
    rw count at (
      run_hits-IsCounting start (n + 1) (hit t now).0 times (hit-IsCounting start n t now c w.0).0
        w.1)

fresh-IsCounting : (start : ℕ) → IsCounting start 0 (fresh start)
unfolding fresh tier_for_hits
fresh-IsCounting start = ground arith

-- A hit of a new entity that follows hits at `times`, all of them and itself within the first ten
-- minutes, is answered by the penalty of the tier of its number.
pub hit_penalty_of_count :
    (start : ℕ) (times : List ℕ) (now : ℕ)
    → All (IsInWindow start) times
    → IsInWindow start now
    → (hit (run_hits (fresh start) times) now).1
      ≡ penalty_for_tier (tier_for_hits (length times + 1))
hit_penalty_of_count start times now w v =
    (hit-IsCounting start (length times) (run_hits (fresh start) times) now
      (rw (zero-add (length times)) at
        (run_hits-IsCounting start 0 (fresh start) times (fresh-IsCounting start) w))
      v).1
