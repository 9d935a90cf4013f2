-- ===== src/FloodGuard.antt =====
-- handlers/flood_guard.go: progressive penalties for entities that collect 401 and 404
-- responses. Times and durations are nanoseconds: a `time.Time` is a number, with 0 for the zero
-- time, and `now` is an argument wherever the code calls `time.Now()`. A difference of times stops
-- at 0; every difference is compared with a positive bound or divided, where a negative one and 0
-- agree.
pub mod Bounds
pub mod Penalty
pub mod Escalation
pub mod Isolation
pub mod Cleanup
mod Examples
use arkfile.Base.{
  ℕ, ◌+◌, ◌-◌, ◌*◌, ◌/◌, max, Bool, true, false, not, ◌&&◌, ◌||◌, Option, none, some, List, [], ◌∷◌,
  String, ltb, leb, ◌==◌, str_eq, if◌then◌else◌,
}
use arkfile.Base.Table.{Table, lookup, insert}

abbrev pub second : ℕ
second = 1000000000

abbrev pub minute : ℕ
minute = 60000000000

abbrev pub hour : ℕ
hour = 3600000000000

abbrev pub flood_window : ℕ
flood_window = 600000000000

abbrev pub tier_decay_period : ℕ
tier_decay_period = 3600000000000

abbrev pub tier_full_reset_period : ℕ
tier_full_reset_period = 21600000000000

pub record FloodTracker : Type 0 where
  pub window_hits : ℕ
  pub peak_tier : ℕ
  pub first_hit : ℕ
  pub last_hit : ℕ
  pub penalty_until : ℕ

-- `floodGuardService.trackers`
abbrev pub Trackers : Type 0
Trackers = Table FloodTracker

pub tier_for_hits : ℕ → ℕ
tier_for_hits hits =
    if leb 80 hits
    then 5
    else if leb 60 hits
    then 4
    else if leb 40 hits
    then 3
    else if leb 20 hits
    then 2
    else if leb 10 hits
    then 1
    else 0

pub penalty_for_tier : ℕ → ℕ
penalty_for_tier tier =
    if tier == 1
    then 5000000000
    else if tier == 2
    then 30000000000
    else if tier == 3
    then 120000000000
    else if tier == 4
    then 600000000000
    else if tier == 5
    then 3600000000000
    else 0

pub decay_tier : FloodTracker → ℕ → FloodTracker
decay_tier t now =
    let silence_duration = now - t.last_hit in
    if t.peak_tier == 0
    then t
    else if leb tier_full_reset_period silence_duration
    then record t { peak_tier = 0 }
    else record t { peak_tier = t.peak_tier - silence_duration / tier_decay_period }

-- A tracker that `RecordUnauthorizedHit` makes for an entity that has none.
pub fresh : ℕ → FloodTracker
fresh now = record {
  window_hits = 0;
  peak_tier = 0;
  first_hit = now;
  last_hit = 0;
  penalty_until = 0;
}

-- The part that ends an expired window.
pub roll_window : FloodTracker → ℕ → FloodTracker
unfolding decay_tier
roll_window t now =
    if not (t.last_hit == 0) && ltb flood_window (now - t.first_hit)
    then record (decay_tier t now) { window_hits = 0; first_hit = now }
    else t

-- The part after the window check: count the hit and set the penalty. Both of the code's
-- branches with a penalty set the same fields; they differ in what they log.
pub count_hit : FloodTracker → ℕ → FloodTracker × ℕ
count_hit t now =
    let window_hits = t.window_hits + 1 in
    let current_tier = tier_for_hits window_hits in
    let effective_tier = if ltb current_tier t.peak_tier then t.peak_tier else current_tier in
    let peak_tier = if ltb t.peak_tier current_tier then current_tier else t.peak_tier in
    let penalty = penalty_for_tier effective_tier in
    let counted = record t { window_hits = window_hits; peak_tier = peak_tier; last_hit = now } in
    let penalised = record counted { penalty_until = now + penalty } in
    if ltb 0 effective_tier && window_hits == 1 && ltb 0 peak_tier
    then (penalised, penalty)
    else if effective_tier == 0
    then (counted, 0)
    else (penalised, penalty)

-- The whole effect of `RecordUnauthorizedHit` on one tracker.
pub hit : FloodTracker → ℕ → FloodTracker × ℕ
unfolding roll_window count_hit
hit t now = count_hit (roll_window t now) now

pub get_or_fresh : Option FloodTracker → ℕ → FloodTracker
unfolding fresh
get_or_fresh none now = fresh now
get_or_fresh (some t) now = t

pub record_unauthorized_hit : Trackers → String → ℕ → Trackers × ℕ
unfolding hit get_or_fresh
record_unauthorized_hit trackers entity_id now =
    let (t, penalty) = hit (get_or_fresh (lookup entity_id trackers) now) now in
    (insert entity_id t trackers, penalty)

-- The answer of `IsBlocked` for one tracker, in whole seconds.
pub blocked_tracker : FloodTracker → ℕ → Bool × ℕ
blocked_tracker t now =
    if t.penalty_until == 0
    then (false, 0)
    else if ltb t.penalty_until now
    then (false, 0)
    else let retry_after = (t.penalty_until - now) / second in
      (true, if ltb retry_after 1 then 1 else retry_after)

pub blocked_option : Option FloodTracker → ℕ → Bool × ℕ
unfolding blocked_tracker
blocked_option none now = (false, 0)
blocked_option (some t) now = blocked_tracker t now

pub is_blocked : Trackers → String → ℕ → Bool × ℕ
unfolding blocked_option
is_blocked trackers entity_id now = blocked_option (lookup entity_id trackers) now

pub is_stale : FloodTracker → ℕ → Bool
is_stale t now =
    (t.penalty_until == 0 || ltb t.penalty_until now)
    && leb tier_full_reset_period (now - t.last_hit)

pub cleanup : Trackers → ℕ → Trackers
unfolding is_stale
cleanup [] now = []
cleanup ((k, t) ∷ m) now = if is_stale t now then cleanup m now else (k, t) ∷ cleanup m now

pub is_flood_guard_exempt_path : String → Bool
is_flood_guard_exempt_path path = str_eq path "/healthz" || str_eq path "/readyz"

-- What the wrapped handler returns: no error, an `*echo.HTTPError` with its code, or another error.
pub data Outcome : Type 0 where
  success : Outcome
  http_error : ℕ → Outcome
  other_error : Outcome

pub data Reply : Type 0 where
  handled : Outcome → Reply
  rate_limited : ℕ → Reply

pub is_bad_response : Outcome → Bool
is_bad_response success = false
is_bad_response (http_error code) = code == 401 || code == 404
is_bad_response other_error = false

-- One request through `FloodGuardMiddleware`. `authenticated` and `outcome` are what the wrapped
-- handler leaves; `t₀` is when `IsBlocked` reads the clock, `t₁` when a hit is recorded.
pub middleware : Trackers → String → String → Bool → Outcome → ℕ → ℕ → Trackers × Reply
unfolding is_flood_guard_exempt_path is_bad_response is_blocked record_unauthorized_hit
middleware trackers path entity_id authenticated outcome t₀ t₁ =
    let (blocked, retry_after) = is_blocked trackers entity_id t₀ in
    let (recorded, _) = record_unauthorized_hit trackers entity_id t₁ in
    if is_flood_guard_exempt_path path
    then (trackers, handled outcome)
    else if blocked
    then (recorded, rate_limited retry_after)
    else if not authenticated && is_bad_response outcome
    then (recorded, handled outcome)
    else (trackers, handled outcome)
