-- ===== src/MfaLockout.antt =====
-- auth/mfa_lockout.go: the failure window of MFA attempts, its backoff and its hard cap. A time is
-- a number of nanoseconds, the table `user_mfa_lockout` a table of rows by username.
pub mod Cap
mod Examples
use arkfile.Base.{
  ℕ, suc, ◌+◌, ◌-◌, ◌*◌, ◌^◌, min, Bool, true, false, ◌&&◌, ◌||◌, Option, none, some, List, [], ◌∷◌,
  ltb, leb, ◌==◌, if◌then◌else◌, String,
}
use arkfile.Base.Table.{Table, lookup, insert, erase}

abbrev pub minute : ℕ
minute = 60000000000

abbrev pub mfa_soft_lockout_threshold : ℕ
mfa_soft_lockout_threshold = 10

abbrev pub mfa_hard_cap_threshold : ℕ
mfa_hard_cap_threshold = 30

abbrev pub mfa_window_duration : ℕ
mfa_window_duration = 86400000000000

abbrev pub mfa_backoff_cap_minutes : ℕ
mfa_backoff_cap_minutes = 60

pub record MfaLockoutState : Type 0 where
  failed_attempts : ℕ
  window_started : Option ℕ
  last_failed : Option ℕ

-- `MFALockoutError`, whose reason is one text, with its `RetryAfter`; `allowed` is no error.
pub data Verdict : Type 0 where
  allowed : Verdict
  locked : ℕ → Verdict

-- `s.windowStarted == nil || now.Sub(*s.windowStarted) >= mfaWindowDuration`
abbrev pub is_window_over : ℕ → Option ℕ → Bool
is_window_over now none = true
is_window_over now (some started) = leb mfa_window_duration (now - started)

-- `1 << backoffExp` minutes, at most the cap.
unfoldable pub backoff : ℕ → ℕ
backoff attempts =
    min (2 ^ (attempts - mfa_soft_lockout_threshold)) mfa_backoff_cap_minutes * minute

abbrev pub until : ℕ → ℕ → Verdict
until now retry_at = if ltb now retry_at then locked (retry_at - now) else allowed

-- Below the hard cap.
unfoldable pub soft_lockout : ℕ → ℕ → Option ℕ → Verdict
soft_lockout now attempts none = allowed
soft_lockout now attempts (some last_failed) =
    if leb mfa_soft_lockout_threshold attempts
    then until now (last_failed + backoff attempts)
    else allowed

abbrev pub window_end : Option ℕ → ℕ
window_end none = 0
window_end (some started) = started + mfa_window_duration

unfoldable pub compute_lockout_state : MfaLockoutState → ℕ → Verdict
compute_lockout_state s now =
    if is_window_over now s.window_started
    then allowed
    else if leb mfa_hard_cap_threshold s.failed_attempts
    then locked (window_end s.window_started - now)
    else soft_lockout now s.failed_attempts s.last_failed

-- The table, and whether the next statement on it fails.
pub record Lockouts : Type 0 where
  rows : Table MfaLockoutState
  reads_fail : Bool
  writes_fail : Bool

abbrev pub state_of : Option MfaLockoutState → MfaLockoutState
state_of none = record { failed_attempts = 0; window_started = none; last_failed = none }
state_of (some s) = s

-- `none` where the query fails, the empty state where there is no row.
unfoldable pub get_mfa_lockout_state : Lockouts → String → Option MfaLockoutState
get_mfa_lockout_state db username =
    if db.reads_fail then none else some (state_of (lookup username db.rows))

-- The state that a failure leaves, written in a window that is still open.
unfoldable pub next_state : MfaLockoutState → ℕ → MfaLockoutState
next_state cur now =
    if is_window_over now cur.window_started
    then record { failed_attempts = 1; window_started = some now; last_failed = some now }
    else record {
      failed_attempts = suc cur.failed_attempts;
      window_started = cur.window_started;
      last_failed = some now;
    }

abbrev pub write_state :
    Lockouts → String → MfaLockoutState → MfaLockoutState → Lockouts × MfaLockoutState
write_state db username cur next =
    if db.writes_fail then (db, cur) else (record db { rows = insert username next db.rows }, next)

abbrev pub record_read : Lockouts → String → ℕ → Option MfaLockoutState → Lockouts × MfaLockoutState
record_read db username now none = (db, state_of none)
record_read db username now (some cur) = write_state db username cur (next_state cur now)

-- The state in the second place is the one that the code returns beside its error.
unfoldable pub record_mfa_failure : Lockouts → String → ℕ → Lockouts × MfaLockoutState
record_mfa_failure db username now = record_read db username now (get_mfa_lockout_state db username)

unfoldable pub clear_mfa_failures : Lockouts → String → Lockouts
clear_mfa_failures db username =
    if db.writes_fail then db else record db { rows = erase username db.rows }

abbrev pub check_read : ℕ → Option MfaLockoutState → Option Verdict
check_read now none = none
check_read now (some s) = some (compute_lockout_state s now)

-- `none` is the error of a query that fails.
unfoldable pub check_mfa_lockout : Lockouts → String → ℕ → Option Verdict
check_mfa_lockout db username now = check_read now (get_mfa_lockout_state db username)

pub data LockoutEvent : Type 0 where
  mfa_soft_lockout mfa_hard_cap mfa_lockout_cleared : LockoutEvent

abbrev pub event_at : ℕ → List LockoutEvent
event_at attempts =
    if attempts == suc mfa_soft_lockout_threshold
    then mfa_soft_lockout ∷ []
    else if attempts == suc mfa_hard_cap_threshold
    then mfa_hard_cap ∷ []
    else []

-- The table, and the events emitted.
unfoldable pub record_mfa_failure_and_emit : Lockouts → String → ℕ → Lockouts × List LockoutEvent
record_mfa_failure_and_emit db username now =
    let (after, updated) = record_mfa_failure db username now in
    (after, event_at updated.failed_attempts)

unfoldable pub clear_mfa_failures_if_locked :
    Lockouts → String → MfaLockoutState → Lockouts × List LockoutEvent
clear_mfa_failures_if_locked db username lock_state = (
  clear_mfa_failures db username,
  if leb mfa_soft_lockout_threshold lock_state.failed_attempts
      then mfa_lockout_cleared ∷ []
      else [],
)

abbrev pub record_if_allowed : Option Verdict → Lockouts → String → ℕ → Lockouts × List LockoutEvent
record_if_allowed none db username now = (db, [])
record_if_allowed (some allowed) db username now = record_mfa_failure_and_emit db username now
record_if_allowed (some (locked r)) db username now = (db, [])

-- `ValidateTOTPCode` on a code that the third-party validator rejects, of a user whose secret is
-- there: the check stands before the code is looked at, and the failure is recorded behind it.
unfoldable pub validate_wrong_code : Lockouts → String → ℕ → Lockouts × List LockoutEvent
validate_wrong_code db username now =
    record_if_allowed (check_mfa_lockout db username now) db username now
