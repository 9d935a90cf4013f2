-- ===== src/MfaLockout/Cap.antt =====
-- What the lockout of auth/mfa_lockout.go guarantees when every recorded failure is an attempt
-- that the check allowed, as in the three factors' verification functions.
use arkfile.Base.{
  ℕ, ◌+◌, ◌-◌, ◌*◌, ◌^◌, ◌≤◌, ◌≡◌, refl, min, ◌⊎◌, inl, inr, Bool, true, false, Option, none, some,
  List, [], ◌∷◌, arith, ltb, leb, if◌then◌else◌, String, str_eq,
}
use arkfile.Base.Table.{lookup, lookup-insert_self, lookup-insert_ne, lookup-erase}
use arkfile.MfaLockout.{
  validate_wrong_code, record_if_allowed, MfaLockoutState, Verdict, allowed, locked, is_window_over,
  backoff, soft_lockout, compute_lockout_state, Lockouts, state_of, get_mfa_lockout_state,
  next_state, record_mfa_failure, check_mfa_lockout, LockoutEvent, mfa_hard_cap, event_at,
  write_state, record_mfa_failure_and_emit, clear_mfa_failures,
}

-- The window starts in the past, and the last failure lies in between.
abbrev pub IsOrdered : Option ℕ → Option ℕ → ℕ → Type 0
IsOrdered none last now = Unit
IsOrdered (some started) none now = started ≤ now
IsOrdered (some started) (some last) now = (started ≤ last) × (last ≤ now)

cap-le : (p : ℕ) → min p 60 * 60000000000 ≤ 3600000000000
cap-le p = omega arith

pub backoff-le : (n : ℕ) → backoff n ≤ 3600000000000
unfolding backoff
backoff-le n = cap-le (2 ^ (n - 10))

-- Where the window starts in the past and the last failure lies in between, a lockout lasts at most
-- a day, and below the hard cap at most an hour.
compute_lockout_state-le :
    (s : MfaLockoutState) (now r : ℕ)
    → IsOrdered s.window_started s.last_failed now
    → compute_lockout_state s now ≡ locked r
    → r ≤ (if leb 30 s.failed_attempts then 86400000000000 else 3600000000000)
unfolding compute_lockout_state soft_lockout
compute_lockout_state-le s now r o h = ground (arith, backoff-le s.failed_attempts)

abbrev pub attempts_of : Lockouts → String → ℕ
attempts_of db username = (state_of (lookup username db.rows)).failed_attempts

pub next_state-le :
    (s : MfaLockoutState) (now : ℕ)
    → compute_lockout_state s now ≡ allowed
    → s.failed_attempts ≤ 30
    → (next_state s now).failed_attempts ≤ 30
unfolding compute_lockout_state next_state soft_lockout
next_state-le s now h c = ground arith

abbrev pub is_hard_cap : List LockoutEvent → Bool
is_hard_cap [] = false
is_hard_cap (mfa_hard_cap ∷ es) = true
is_hard_cap (_ ∷ es) = is_hard_cap es

event_at-le : (n : ℕ) → n ≤ 30 → is_hard_cap (event_at n) ≡ false
event_at-le n h = ground arith

-- The state that a failure leaves, recorded or not, is at most the cap.
write_state-caps :
    (db : Lockouts) (username : String) (cur next : MfaLockoutState)
    → attempts_of db username ≤ 30
    → cur.failed_attempts ≤ 30
    → next.failed_attempts ≤ 30
    → (attempts_of (write_state db username cur next).0 username ≤ 30)
      × ((write_state db username cur next).1.failed_attempts ≤ 30)
write_state-caps db username cur next h c n =
    ground (arith, lookup-insert_self username next db.rows)

read-cases :
    (db : Lockouts) (username : String)
    → (get_mfa_lockout_state db username ≡ none)
      ⊎ (get_mfa_lockout_state db username ≡ some (state_of (lookup username db.rows)))
unfolding get_mfa_lockout_state
read-cases db username = ground arith

record-caps :
    (db : Lockouts) (username : String) (now : ℕ)
    → attempts_of db username ≤ 30
    → compute_lockout_state (state_of (lookup username db.rows)) now ≡ allowed
    → (attempts_of (record_mfa_failure db username now).0 username ≤ 30)
      × ((record_mfa_failure db username now).1.failed_attempts ≤ 30)
unfolding record_mfa_failure
record-caps db username now h a =
    let cur = state_of (lookup username db.rows) in
    let next = next_state cur now in
    elim (read-cases db username) [
      | inl e ↦ rw e (h, omega arith)
      | inr e ↦ rw e (write_state-caps db username cur next h h (next_state-le cur now a h))
    ]

verdict-caps :
    (db : Lockouts) (username : String) (now : ℕ) (v : Verdict)
    → attempts_of db username ≤ 30
    → compute_lockout_state (state_of (lookup username db.rows)) now ≡ v
    → (attempts_of (record_if_allowed (some v) db username now).0 username ≤ 30)
      × (is_hard_cap (record_if_allowed (some v) db username now).1 ≡ false)
unfolding record_mfa_failure_and_emit
verdict-caps db username now allowed h a =
    let (rows, returned) = record-caps db username now h a in
    (rows, event_at-le (record_mfa_failure db username now).1.failed_attempts returned)
verdict-caps db username now (locked r) h a = (h, refl)

-- A user with at most 30 failures still has at most 30 behind any wrong code, whatever statement
-- fails, and the event `MFAHardCap` is not emitted.
pub validate_wrong_code-caps :
    (db : Lockouts) (username : String) (now : ℕ)
    → attempts_of db username ≤ 30
    → (attempts_of (validate_wrong_code db username now).0 username ≤ 30)
      × (is_hard_cap (validate_wrong_code db username now).1 ≡ false)
unfolding validate_wrong_code check_mfa_lockout
validate_wrong_code-caps db username now h = elim (read-cases db username) [
  | inl e ↦ rw e (h, refl)
  | inr e ↦ rw e (
      verdict-caps db username now (compute_lockout_state (state_of (lookup username db.rows)) now)
        h refl)
]

-- Where the window starts in the past and the last failure lies in between: from a lockout on, the
-- attempt is refused with the wait that remains, until the wait that the
-- lockout names is over or the window ends; from then on it is allowed.
pub compute_lockout_state-waits :
    (s : MfaLockoutState) (now r later : ℕ)
    → IsOrdered s.window_started s.last_failed now
    → compute_lockout_state s now ≡ locked r
    → now ≤ later
    → compute_lockout_state s later ≡ (
        if is_window_over later s.window_started
        then allowed
        else if ltb later (now + r)
        then locked (now + r - later)
        else allowed)
unfolding compute_lockout_state soft_lockout
compute_lockout_state-waits s now r later o h l = ground arith

-- A failure or a success of one user leaves what the check says of another.
mfa_lockout-isolated :
    (db : Lockouts) (username other : String) (now later : ℕ)
    → str_eq username other ≡ false
    → (check_mfa_lockout (record_mfa_failure_and_emit db username now).0 other later
        ≡ check_mfa_lockout db other later)
      × (check_mfa_lockout (clear_mfa_failures db username) other later
          ≡ check_mfa_lockout db other later)
unfolding check_mfa_lockout get_mfa_lockout_state record_mfa_failure record_mfa_failure_and_emit
    clear_mfa_failures
mfa_lockout-isolated db username other now later h = (
  ground (
    arith,
    lookup-insert_ne username other (next_state (state_of (lookup username db.rows)) now) db.rows,
  ),
  ground (arith, lookup-erase username other db.rows),
)
