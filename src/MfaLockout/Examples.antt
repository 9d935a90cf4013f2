-- ===== src/MfaLockout/Examples.antt =====
-- The theorems on the MFA lockout at a user with thirty failures and one with twelve.
use arkfile.Base.{◌≡◌, ◌≤◌, refl, false, some, [], ◌∷◌, arith}
use arkfile.Base.Table.{lookup}
use arkfile.MfaLockout.{
  MfaLockoutState, Lockouts, locked, backoff, soft_lockout, compute_lockout_state,
  validate_wrong_code,
}
use arkfile.MfaLockout.Cap.{
  attempts_of, is_hard_cap, validate_wrong_code-caps, compute_lockout_state-waits,
}

abbrev twelve : MfaLockoutState
twelve = record { failed_attempts = 12; window_started = some 100; last_failed = some 200 }

abbrev two_users : Lockouts
two_users = record {
  rows =
      ("ada", twelve)
      ∷ ("eve", record { failed_attempts = 29; window_started = some 100; last_failed = some 200 })
      ∷ [];
  reads_fail = false;
  writes_fail = false;
}

-- The thirtieth failure, an hour behind the twenty-ninth.
validate_wrong_code-caps_example :
    (attempts_of (validate_wrong_code two_users "eve" 3600000000200).0 "eve" ≤ 30)
    × (is_hard_cap (validate_wrong_code two_users "eve" 3600000000200).1 ≡ false)
unfolding lookup
validate_wrong_code-caps_example =
    validate_wrong_code-caps two_users "eve" 3600000000200 (omega arith)

twelve-locked : compute_lockout_state twelve 300 ≡ locked 239999999900
unfolding compute_lockout_state soft_lockout backoff
twelve-locked = refl

compute_lockout_state-waits_example : compute_lockout_state twelve 500 ≡ locked 239999999700
compute_lockout_state-waits_example =
    compute_lockout_state-waits twelve 300 239999999900 500 (omega arith, omega arith) twelve-locked
      (omega arith)
