-- ===== src/FloodGuard/Bounds.antt =====
-- The tiers and penalties of handlers/flood_guard.go as functions of the hits, and the invariant
-- of one tracker.
use arkfile.Base.{ℕ, ◌+◌, ◌≤◌, arith}
use arkfile.FloodGuard.{FloodTracker, hour, tier_for_hits, penalty_for_tier, fresh}

pub tier_for_hits_mono : (a b : ℕ) → a ≤ b → tier_for_hits a ≤ tier_for_hits b
unfolding tier_for_hits
tier_for_hits_mono a b h = ground arith

pub tier_for_hits-le : (a : ℕ) → tier_for_hits a ≤ 5
unfolding tier_for_hits
tier_for_hits-le a = ground arith

pub penalty_for_tier_mono : (a b : ℕ) → a ≤ b → b ≤ 5 → penalty_for_tier a ≤ penalty_for_tier b
unfolding penalty_for_tier
penalty_for_tier_mono a b h k = ground arith

pub penalty_for_tier-le : (a : ℕ) → penalty_for_tier a ≤ hour
unfolding penalty_for_tier
penalty_for_tier-le a = ground arith

-- What holds of a tracker that has counted at least one hit.
pub record IsValid (t : FloodTracker) : Type 0 where
  pub counted : 1 ≤ t.window_hits
  pub peak_capped : t.peak_tier ≤ 5
  pub peak_covers : tier_for_hits t.window_hits ≤ t.peak_tier
  pub in_order : t.first_hit ≤ t.last_hit
  pub penalty_capped : t.penalty_until ≤ t.last_hit + penalty_for_tier t.peak_tier

-- What holds of a tracker between the window check and the count, at the time `now`.
pub record IsRolled (t : FloodTracker) (now : ℕ) : Type 0 where
  pub peak_capped : t.peak_tier ≤ 5
  pub peak_covers : tier_for_hits t.window_hits ≤ t.peak_tier
  pub in_order : t.first_hit ≤ now
  pub penalty_capped : t.penalty_until ≤ now + penalty_for_tier t.peak_tier

pub fresh-IsRolled : (now : ℕ) → IsRolled (fresh now) now
unfolding fresh tier_for_hits
fresh-IsRolled now = ground arith
