-- ===== src/RateLimit/Growth.antt =====
-- The penalties of handlers/rate_limiting.go grow with the count, up to half an hour.
use arkfile.Base.{ℕ, zero, suc, ◌-◌, ◌*◌, ◌≤◌, List, [], ◌∷◌, arith, leb, if◌then◌else◌, String}
use arkfile.RateLimit.{
  second, nth_or_cap, penalty_from, share_penalties, base_penalties, calculate_share_penalty,
  calculate_auth_penalty,
}

-- The array does not fall, and stays below the cap.
abbrev IsRising : ℕ → List ℕ → Type 0
IsRising low [] = low ≤ 1800000000000
IsRising low (d ∷ ds) = (low ≤ d) × IsRising d ds

nth_or_cap-bounds :
    (low n : ℕ) (ds : List ℕ)
    → IsRising low ds
    → (low ≤ nth_or_cap n ds) × (nth_or_cap n ds ≤ 1800000000000)
nth_or_cap-bounds low n [] h = (h, omega arith)
nth_or_cap-bounds low zero (d ∷ ds) (l, h) = (l, omega (arith, nth_or_cap-bounds d zero ds h))
nth_or_cap-bounds low (suc n) (d ∷ ds) (l, h) =
    let (lower, upper) = nth_or_cap-bounds d n ds h in (omega arith, upper)

nth_or_cap_mono :
    (low m n : ℕ) (ds : List ℕ) → IsRising low ds → m ≤ n → nth_or_cap m ds ≤ nth_or_cap n ds
nth_or_cap_mono low m n [] h l = omega arith
nth_or_cap_mono low zero n (d ∷ ds) (p, h) l = (nth_or_cap-bounds d n (d ∷ ds) (omega arith, h)).0
nth_or_cap_mono low (suc m) (suc n) (d ∷ ds) (p, h) l = nth_or_cap_mono d m n ds h (omega arith)
nth_or_cap_mono low (suc m) zero (d ∷ ds) (p, h) l = omega arith

base_penalties-IsRising : (endpoint : String) → IsRising (30 * second) (base_penalties endpoint)
base_penalties-IsRising endpoint = ground arith

penalty_from-bounds :
    (low n : ℕ) (ds : List ℕ)
    → IsRising low ds
    → (penalty_from ds n ≤ 1800000000000) × ((if leb n 3 then 0 else low) ≤ penalty_from ds n)
penalty_from-bounds low n ds h = ground (arith, nth_or_cap-bounds low (n - 4) ds)

penalty_from_mono :
    (low m n : ℕ) (ds : List ℕ) → IsRising low ds → m ≤ n → penalty_from ds m ≤ penalty_from ds n
penalty_from_mono low m n ds h l = ground (arith, nth_or_cap_mono low (m - 4) (n - 4) ds)

-- For every endpoint, the penalty does not fall when the count grows, is at most half an hour, and
-- at least half a minute from the fourth failure on.
calculate_auth_penalty-grows :
    (endpoint : String) (m n : ℕ)
    → m ≤ n
    → (calculate_auth_penalty m endpoint ≤ calculate_auth_penalty n endpoint)
      × (calculate_auth_penalty n endpoint ≤ 1800 * second)
      × ((if leb n 3 then 0 else 30 * second) ≤ calculate_auth_penalty n endpoint)
unfolding calculate_auth_penalty
calculate_auth_penalty-grows endpoint m n l =
    let rising = base_penalties-IsRising endpoint in
    let (upper, lower) = penalty_from-bounds (30 * second) n (base_penalties endpoint) rising in
    (penalty_from_mono (30 * second) m n (base_penalties endpoint) rising l, upper, lower)

pub calculate_share_penalty-le : (n : ℕ) → calculate_share_penalty n ≤ 1800000000000
unfolding calculate_share_penalty
calculate_share_penalty-le n = (penalty_from-bounds (30 * second) n share_penalties ground arith).0
