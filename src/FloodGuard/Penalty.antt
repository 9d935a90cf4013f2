-- ===== src/FloodGuard/Penalty.antt =====
-- The penalties of handlers/flood_guard.go over time: they are bounded, an active one is never
-- shortened, they escalate with the hits and are forgotten after a long silence.
use arkfile.Base.{ℕ, ◌+◌, ◌-◌, ◌/◌, ◌≤◌, ◌<◌, ◌≡◌, true, arith}
use arkfile.FloodGuard.{
  FloodTracker, tier_full_reset_period, tier_for_hits, fresh, roll_window, count_hit, hit,
  blocked_tracker,
}
use arkfile.FloodGuard.Bounds.{
  IsValid, IsRolled, fresh-IsRolled, tier_for_hits-le, penalty_for_tier_mono, penalty_for_tier-le,
}

-- Ending an expired window keeps the invariant.
roll_window-IsRolled :
    (t : FloodTracker) (now : ℕ) → IsValid t → t.last_hit ≤ now → IsRolled (roll_window t now) now
unfolding roll_window tier_for_hits
roll_window-IsRolled t now v h = ground (
  arith,
  penalty_for_tier_mono 0 t.peak_tier,
  penalty_for_tier-le t.peak_tier,
  penalty_for_tier-le (t.peak_tier - (now - t.last_hit) / 3600000000000),
)

-- Counting one hit makes or keeps the invariant.
pub count_hit-IsValid : (t : FloodTracker) (now : ℕ) → IsRolled t now → IsValid (count_hit t now).0
unfolding count_hit
count_hit-IsValid t now v = ground (
  arith,
  tier_for_hits-le (t.window_hits + 1),
  penalty_for_tier_mono t.peak_tier (tier_for_hits (t.window_hits + 1)),
)

-- A hit that is not before the tracker's last one keeps the tracker's invariant: at least one hit is
-- counted, the peak tier is at most 5 and at least that of the count, the window does not start
-- behind the last hit, and the block ends within the peak tier's penalty from the last hit.
pub hit-IsValid :
    (t : FloodTracker) (now : ℕ) → IsValid t → t.last_hit ≤ now → IsValid (hit t now).0
unfolding hit
hit-IsValid t now v h = count_hit-IsValid (roll_window t now) now (roll_window-IsRolled t now v h)

-- A fresh tracker has no window to end.
pub roll_window-fresh : (now : ℕ) → roll_window (fresh now) now ≡ fresh now
unfolding roll_window fresh
roll_window-fresh now = ground arith

pub hit-fresh-IsValid : (now : ℕ) → IsValid (hit (fresh now) now).0
unfolding hit
hit-fresh-IsValid now =
    rw (roll_window-fresh now) (count_hit-IsValid (fresh now) now (fresh-IsRolled now))

-- A hit never shortens an active penalty.
roll_window-penalty :
    (t : FloodTracker) (now : ℕ)
    → IsValid t
    → t.last_hit ≤ now
    → (roll_window t now).penalty_until ≡ t.penalty_until
unfolding roll_window
roll_window-penalty t now v h = ground arith

count_hit-penalty_mono :
    (t : FloodTracker) (now : ℕ)
    → IsRolled t now
    → t.penalty_until ≤ (count_hit t now).0.penalty_until
unfolding count_hit
count_hit-penalty_mono t now v = ground (
  arith,
  penalty_for_tier_mono t.peak_tier (tier_for_hits (t.window_hits + 1)),
  tier_for_hits-le (t.window_hits + 1),
)

-- A hit that is not before a valid tracker's last one never shortens its block.
pub hit-penalty_mono :
    (t : FloodTracker) (now : ℕ)
    → IsValid t
    → t.last_hit ≤ now
    → t.penalty_until ≤ (hit t now).0.penalty_until
unfolding hit
hit-penalty_mono t now v h = omega (
  arith,
  roll_window-penalty t now v h,
  count_hit-penalty_mono (roll_window t now) now (roll_window-IsRolled t now v h),
)

-- A penalty that is returned is the one that is enforced, and is an hour at most.
count_hit-blocks :
    (t : FloodTracker) (now later : ℕ)
    → 0 < (count_hit t now).1
    → later ≤ now + (count_hit t now).1
    → ((blocked_tracker (count_hit t now).0 later).0 ≡ true)
      × (1 ≤ (blocked_tracker (count_hit t now).0 later).1)
unfolding count_hit blocked_tracker
count_hit-blocks t now later p h = ground arith

-- An entity to which a hit gives a penalty is blocked until the penalty is over, and is told to
-- wait for at least a second.
hit-blocks :
    (t : FloodTracker) (now later : ℕ)
    → 0 < (hit t now).1
    → later ≤ now + (hit t now).1
    → ((blocked_tracker (hit t now).0 later).0 ≡ true)
      × (1 ≤ (blocked_tracker (hit t now).0 later).1)
unfolding hit
hit-blocks t now later p h = count_hit-blocks (roll_window t now) now later p h

-- After six hours without a hit nothing is remembered: the next hit is treated as a first one.
roll_window_forgets :
    (t : FloodTracker) (now : ℕ)
    → IsValid t
    → t.last_hit + tier_full_reset_period ≤ now
    → 0 < t.last_hit
    → ((roll_window t now).peak_tier ≡ 0) × ((roll_window t now).window_hits ≡ 0)
unfolding roll_window
roll_window_forgets t now v h p = ground arith

pub count_hit_first :
    (t : FloodTracker) (now : ℕ) → t.peak_tier ≡ 0 → t.window_hits ≡ 0 → (count_hit t now).1 ≡ 0
unfolding count_hit tier_for_hits
count_hit_first t now p h = ground arith

-- A hit on a valid tracker that was silent for the six hours of the full reset has no penalty.
pub hit_forgets :
    (t : FloodTracker) (now : ℕ)
    → IsValid t
    → 0 < t.last_hit
    → t.last_hit + tier_full_reset_period ≤ now
    → (hit t now).1 ≡ 0
unfolding hit
hit_forgets t now v p h =
    let (peak, hits) = roll_window_forgets t now v h p in
    count_hit_first (roll_window t now) now peak hits
