-- ===== src/Billing/Meter.antt =====
-- billing/meter.go: the hourly tick.
use arkfile.Base.{
  ℕ, suc, Bool, true, false, not, ◌&&◌, ◌||◌, Option, none, some, List, [], ◌∷◌, String, str_eq,
  if◌then◌else◌,
}
use arkfile.Base.Int.{ℤ, pos, ◌+ℤ◌, sub64, mul64, shr64, leb_ℤ}
use arkfile.Base.Table.{Table, lookup, insert}
use arkfile.Billing.State.{
  Accumulator, UserRow, Db, Env, Result, ok, err, nil_rate, empty_username, no_rows, db_error,
  select_storage, upsert_accumulator, list_users, scan_row, Tx, ◌>>=◌, pure, fail, exec, query,
}

-- `Rate`, without the time at which it was resolved.
pub record Rate : Type 0 where
  pub microcents_per_gib_per_hour : ℤ
  pub customer_price_usd_per_tb_per_month : List ℕ

-- The fields of `config.BillingConfig` that the meter reads.
pub record BillingConfig : Type 0 where
  pub free_baseline_bytes : ℤ
  pub include_admins : Bool

-- The charge of one hour, or none where the code returns without a write.
unfoldable pub tick_charge : ℤ → ℤ → ℤ → Option ℤ
tick_charge total free_baseline rate =
    let billable = sub64 total free_baseline in
    let charge = shr64 (mul64 billable rate) 30 in
    if leb_ℤ billable (pos 0) then none else if leb_ℤ charge (pos 0) then none else some charge

-- The row that the upsert leaves.
unfoldable pub add_charge : ℤ → ℕ → Option Accumulator → Accumulator
add_charge charge now none = record {
  unbilled_microcents = charge;
  last_tick_at = now;
  last_billed_at = none;
}
add_charge charge now (some a) = record a {
  unbilled_microcents = a.unbilled_microcents +ℤ charge;
  last_tick_at = now;
}

unfoldable pub apply_charge : Env → String → ℕ → Option ℤ → Tx (Unit {0})
unfolding add_charge
apply_charge env username now none = pure tt
apply_charge env username now (some charge) = exec env upsert_accumulator username (λ d. record d {
  accumulators =
      insert username (add_charge charge now (lookup username d.accumulators)) d.accumulators;
})

unfoldable pub charge_user : Env → String → ℤ → ℕ → ℤ → Option UserRow → Tx (Unit {0})
unfolding tick_charge apply_charge
charge_user env username rate now free_baseline none = fail no_rows
charge_user env username rate now free_baseline (some row) =
    apply_charge env username now
      (tick_charge (env.scan row.total_storage_bytes) free_baseline rate)

-- The read of the storage and what follows it.
abbrev pub tick_known : Env → String → Rate → ℕ → ℤ → Tx (Unit {0})
tick_known env username rate now free_baseline = do
  row ← query env select_storage username (λ d. lookup username d.users)
  charge_user env username rate.microcents_per_gib_per_hour now free_baseline row

-- `TickUser`: one read and one upsert, with no transaction around them.
unfoldable pub tick_user : Env → String → Option Rate → ℕ → ℤ → Tx (Unit {0})
unfolding charge_user
tick_user env username none now free_baseline db = err nil_rate
tick_user env username (some rate) now free_baseline db =
    if str_eq username ""
    then err empty_username
    else tick_known env username rate now free_baseline db

abbrev pub is_admin_row : Option Bool → Bool
is_admin_row none = false
is_admin_row (some b) = b

-- The `WHERE` clause of the list of users.
unfoldable pub is_billable : BillingConfig → UserRow → Bool
is_billable cfg row = row.is_approved && (cfg.include_admins || not (is_admin_row row.is_admin))

unfoldable pub billable_users : BillingConfig → Table UserRow → List String
unfolding is_billable
billable_users cfg [] = []
billable_users cfg ((name, row) ∷ m) =
    if is_billable cfg row then name ∷ billable_users cfg m else billable_users cfg m

-- The outcome of one user: the tables after it, and whether it counts as an error.
abbrev pub tick_outcome : Result (Unit {0} × Db) → Db → Db × Bool
tick_outcome (ok (u, db')) db = (db', true)
tick_outcome (err e) db = (db, false)

unfoldable pub tick_listed : Env → Rate → ℕ → BillingConfig → String → Db → Db × Bool
unfolding tick_user
tick_listed env rate now cfg name db =
    if env.fails scan_row name
    then (db, false)
    else tick_outcome (tick_user env name (some rate) now cfg.free_baseline_bytes db) db

-- `count++` or `errCount++`
abbrev pub bump : Bool → ℕ × ℕ → ℕ × ℕ
bump true (count, err_count) = (suc count, err_count)
bump false (count, err_count) = (count, suc err_count)

-- The loop of `TickAllActiveUsers` with its two counts.
unfoldable pub tick_loop : Env → Rate → ℕ → BillingConfig → List String → ℕ × ℕ → Db → Db × (ℕ × ℕ)
tick_loop env rate now cfg [] counts db = (db, counts)
tick_loop env rate now cfg (name ∷ names) counts db =
    let (db', billed) = tick_listed env rate now cfg name db in
    tick_loop env rate now cfg names (bump billed counts) db'

unfoldable pub tick_all_active_users :
    Env → Option Rate → ℕ → BillingConfig → Db → Db × Result (ℕ × ℕ)
unfolding billable_users tick_loop
tick_all_active_users env none now cfg db = (db, err nil_rate)
tick_all_active_users env (some rate) now cfg db =
    if env.fails list_users ""
    then (db, err (db_error list_users))
    else let (db', counts) = tick_loop env rate now cfg (billable_users cfg db.users) (0, 0) db in
      (db', ok counts)
