-- ===== src/Billing/Sweep.antt =====
-- billing/sweep.go: the daily settlement.
use arkfile.Base.{
  ℕ, suc, ◌-◌, ◌/◌, Option, none, some, List, [], ◌∷◌, String, str_eq, if◌then◌else◌, ltb,
}
use arkfile.Base.Int.{ℤ, pos, add64, sub64, neg64, ltb_ℤ}
use arkfile.Base.Table.{Table, lookup, insert}
use arkfile.Billing.State.{
  CreditTransaction, usage, Accumulator, Db, Env, Result, ok, err, nil_rate, db_error,
  list_accumulators, scan_row, reset_accumulator, Tx, ◌>>=◌, ◌>>◌, pure, exec, run_tx,
}
use arkfile.Billing.Balance.{read_or_create_balance, write_balance, append_row}
use arkfile.Billing.Meter.{Rate}

abbrev pub hour : ℕ
hour = 3600000000000

abbrev pub day : ℕ
day = 86400000000000

-- The two layouts, tried in order.
abbrev pub or_else : Option ℕ → Option ℕ → Option ℕ
or_else (some t) o = some t
or_else none o = o

unfoldable pub parse_billed_at : Env → Option String → Option ℕ
parse_billed_at env none = none
parse_billed_at env (some s) =
    if str_eq s "" then none else or_else (env.parse_sql s) (env.parse_rfc3339 s)

-- The period of a settlement: its start, its end, and its number of ticks, by the time that was
-- read from `last_billed_at`.
unfoldable pub period_since : Option ℕ → ℕ → ℕ × ℕ × ℕ
period_since none now = (now - day, now, 24)
period_since (some start) now =
    let ticks = (now - start) / hour in (start, now, if ltb ticks 1 then 1 else ticks)

unfoldable pub compute_settlement_period : Env → Option String → ℕ → ℕ × ℕ × ℕ
unfolding parse_billed_at period_since
compute_settlement_period env last_billed_at now =
    period_since (parse_billed_at env last_billed_at) now

unfoldable pub usage_row : Env → Rate → ℕ → String → ℤ → Option String → ℤ → CreditTransaction
unfolding compute_settlement_period
usage_row env rate now username drained last_billed_at balance =
    let (start, end_at, ticks) = compute_settlement_period env last_billed_at now in
    record {
      transaction_id = none;
      username = username;
      amount_usd_microcents = neg64 drained;
      balance_after_usd_microcents = balance;
      transaction_type = usage;
      reason = "Daily storage usage";
      admin_username = none;
      metadata = some (record {
        drained_microcents = drained;
        rate_microcents_per_gib_per_hour = rate.microcents_per_gib_per_hour;
        period_start = start;
        period_end = end_at;
        ticks_count = ticks;
      });
    }

abbrev pub reset_row : String → Option Accumulator → Option Accumulator
reset_row billed none = none
reset_row billed (some a) =
    some (record a { unbilled_microcents = pos 0; last_billed_at = some billed })

abbrev pub put : String → Option Accumulator → Table Accumulator → Table Accumulator
put username none m = m
put username (some a) m = insert username a m

-- Step 5: an `UPDATE`, which changes nothing if there is no row.
unfoldable pub reset_unbilled : Env → ℕ → String → Tx (Unit {0})
reset_unbilled env now username = exec env reset_accumulator username (λ d. record d {
  accumulators =
      put username (reset_row (env.stored_time now) (lookup username d.accumulators))
        d.accumulators;
})

unfoldable pub settle_user_body : Env → Rate → ℕ → String → ℤ → Option String → Tx ℤ
unfolding read_or_create_balance write_balance append_row usage_row reset_unbilled
settle_user_body env rate now username drained last_billed_at = do
  current ← read_or_create_balance env username
  write_balance env username (sub64 current drained)
  append_row env (usage_row env rate now username drained last_billed_at (sub64 current drained))
  reset_unbilled env now username
  pure (sub64 current drained)

-- `settleOneUser`
unfoldable pub settle_one_user : Env → Rate → ℕ → String → ℤ → Option String → Db → Db × Result ℤ
unfolding settle_user_body
settle_one_user env rate now username drained last_billed_at =
    run_tx env username (settle_user_body env rate now username drained last_billed_at)

-- A row that the sweep has read: `pending` in the source.
pub record Pending : Type 0 where
  pub username : String
  pub unbilled_microcents : ℤ
  pub last_billed_at : Option String

-- The rows of the query with a positive balance, or the error of a scan.
abbrev pub cons_pending : Env → String → Accumulator → Result (List Pending) → Result (List Pending)
cons_pending env name a (err e) = err e
cons_pending env name a (ok queue) = ok (
    record {
      username = name;
      unbilled_microcents = env.scan a.unbilled_microcents;
      last_billed_at = a.last_billed_at;
    }
    ∷ queue)

unfoldable pub read_queue : Env → Table Accumulator → Result (List Pending)
read_queue env [] = ok []
read_queue env ((name, a) ∷ m) =
    if ltb_ℤ (pos 0) a.unbilled_microcents
    then (if env.fails scan_row name
        then err (db_error scan_row)
        else cons_pending env name a (read_queue env m))
    else read_queue env m

pub record SweepSummary : Type 0 where
  pub users_settled : ℕ
  pub total_drained_microcents : ℤ
  pub users_with_negative_balance : ℕ

abbrev pub summarise : SweepSummary → ℤ → Result ℤ → SweepSummary
summarise s drained (err e) = s
summarise s drained (ok balance) = record {
  users_settled = suc s.users_settled;
  total_drained_microcents = add64 s.total_drained_microcents drained;
  users_with_negative_balance =
      if ltb_ℤ balance (pos 0)
      then suc s.users_with_negative_balance
      else s.users_with_negative_balance;
}

unfoldable pub sweep_loop : Env → Rate → ℕ → List Pending → SweepSummary → Db → Db × SweepSummary
sweep_loop env rate now [] s db = (db, s)
sweep_loop env rate now (p ∷ queue) s db =
    let (db', r) =
      settle_one_user env rate now p.username p.unbilled_microcents p.last_billed_at db in
    sweep_loop env rate now queue (summarise s p.unbilled_microcents r) db'

abbrev pub sweep_queue : Env → Rate → ℕ → Result (List Pending) → Db → Db × Result SweepSummary
sweep_queue env rate now (err e) db = (db, err e)
sweep_queue env rate now (ok queue) db =
    let (db', s) =
      sweep_loop env rate now queue
        (record {
          users_settled = 0;
          total_drained_microcents = pos 0;
          users_with_negative_balance = 0;
        })
        db in
    (db', ok s)

-- `SweepAllUsers`
unfoldable pub sweep_all_users : Env → Option Rate → ℕ → Db → Db × Result SweepSummary
unfolding read_queue sweep_loop
sweep_all_users env none now db = (db, err nil_rate)
sweep_all_users env (some rate) now db =
    if env.fails list_accumulators ""
    then (db, err (db_error list_accumulators))
    else sweep_queue env rate now (read_queue env db.accumulators) db
