-- ===== src/Billing/MeterLaws.antt =====
-- What an hourly tick charges, and whom.
use arkfile.Base.{
  ℕ, ◌+◌, ◌*◌, ◌/◌, ◌^◌, ◌<◌, ◌≡◌, refl, Bool, true, false, Option, none, some, String, str_eq,
  if◌then◌else◌, arith, eq_iff, if_false, ◌∙◌, ◌==◌,
}
use arkfile.Base.Int.{ℤ, pos, ◌+ℤ◌, ◌*ℤ◌, sub64, mul64, shr64, ◌-ℤ◌, wrap64_exact, +ℤ_zero, +ℤ_comm}
use arkfile.Base.Table.{Table, lookup, insert, lookup-insert}
use arkfile.Billing.State.{
  Accumulator, UserRow, Db, Env, Result, ok, err, upsert_accumulator, select_storage, scan_row,
  empty_username, db_error, Stmt,
}
use arkfile.Billing.Triples.{Ensures, Ensures-if, Ensures-query, query_bind}
use arkfile.Billing.Meter.{
  Rate, BillingConfig, tick_charge, add_charge, apply_charge, charge_user, tick_known, tick_user,
  tick_listed, tick_outcome,
}

*ℤ_pos : (a b : ℕ) → pos a *ℤ pos b ≡ pos (a * b)
unfolding ◌*ℤ◌
*ℤ_pos a b = ground arith

zero_product : (a b : ℕ) → a ≡ 0 → a * b ≡ 0
zero_product a b e = grind arith

mul64_pos : (a b : ℕ) → a * b < 2 ^ 63 → mul64 (pos a) (pos b) ≡ pos (a * b)
unfolding mul64
mul64_pos a b h = rw (*ℤ_pos a b) (wrap64_exact (pos (a * b)) (omega arith))

sub64_pos : (a b : ℕ) → a + b < 2 ^ 62 → sub64 (pos (a + b)) (pos a) ≡ pos b
unfolding sub64 ◌-ℤ◌
sub64_pos a b h = ground arith

-- A user with `free + billable` bytes, below 2^62 of them, at the rate `rate` is charged the floor
-- of billable * rate / 2^30 microcents, and is not charged where that is 0, if the product is below
-- 2^63.
pub tick_charge_floor :
    (free billable rate : ℕ)
    → free + billable < 2 ^ 62
    → billable * rate < 2 ^ 63
    → tick_charge (pos (free + billable)) (pos free) (pos rate)
      ≡ (if billable * rate / 2 ^ 30 == 0 then none else some (pos (billable * rate / 2 ^ 30)))
unfolding tick_charge shr64
tick_charge_floor free billable rate h k =
    rw (sub64_pos free billable h, mul64_pos billable rate k)
      (ground (arith, zero_product billable rate))

-- What a user has not been billed for yet.
abbrev pub unbilled_or_zero : Option Accumulator → ℤ
unbilled_or_zero none = pos 0
unbilled_or_zero (some a) = a.unbilled_microcents

unfoldable pub unbilled_of : Db → String → ℤ
unbilled_of db user = unbilled_or_zero (lookup user db.accumulators)

abbrev pub charge_or_zero : Option ℤ → ℤ
charge_or_zero none = pos 0
charge_or_zero (some c) = c

-- What a tick of one user does to the tables, where it ends without an error.
pub record Ticks (user : String) (charge : ℤ) (before after : Db) : Type 0 where
  pub unbilled :
      (v : String)
      → unbilled_of after v
        ≡ (if str_eq user v then unbilled_of before v +ℤ charge else unbilled_of before v)
  pub credits : after.user_credits ≡ before.user_credits
  pub rows : after.credit_transactions ≡ before.credit_transactions
  pub users : after.users ≡ before.users

charge_unbilled :
    (user v : String) (charge : ℤ) (now : ℕ) (m : Table Accumulator)
    → unbilled_or_zero (lookup v (insert user (add_charge charge now (lookup user m)) m)) ≡ (
        if str_eq user v
        then unbilled_or_zero (lookup v m) +ℤ charge
        else unbilled_or_zero (lookup v m))
unfolding add_charge
charge_unbilled user v charge now m = ground (
  arith,
  lookup-insert user v (add_charge charge now (lookup user m)) m,
  eq_iff user v,
  +ℤ_zero charge,
  +ℤ_comm (pos 0) charge,
)

apply_charge-Ticks :
    (env : Env) (user : String) (now : ℕ) (charge : Option ℤ) (db : Db)
    → Ensures
        (λ u db'. Ticks user (charge_or_zero charge) db db')
        (apply_charge env user now charge db)
unfolding apply_charge unbilled_of
apply_charge-Ticks env user now none db = record {
  unbilled = λ v. ground (arith, +ℤ_zero (unbilled_or_zero (lookup v db.accumulators)));
  credits = refl;
  rows = refl;
  users = refl;
}
apply_charge-Ticks env user now (some charge) db =
    Ensures-if (λ u db'. Ticks user charge db db') (env.fails upsert_accumulator user)
      (db_error upsert_accumulator)
      (ok (
        tt,
        record db {
          accumulators =
              insert user (add_charge charge now (lookup user db.accumulators)) db.accumulators;
        },
      ))
      (record {
        unbilled = λ v. charge_unbilled user v charge now db.accumulators;
        credits = refl;
        rows = refl;
        users = refl;
      })

-- The charge of a user's row at a rate, 0 where there is none.
pub charge_of : Env → ℤ → ℤ → Option UserRow → ℤ
charge_of env rate free none = pos 0
charge_of env rate free (some row) =
    charge_or_zero (tick_charge (env.scan row.total_storage_bytes) free rate)

charge_user-Ticks :
    (env : Env) (user : String) (rate : ℤ) (now : ℕ) (free : ℤ) (o : Option UserRow) (db : Db)
    → Ensures
        (λ u db'. Ticks user (charge_of env rate free o) db db')
        (charge_user env user rate now free o db)
unfolding charge_user charge_of
charge_user-Ticks env user rate now free none db = tt
charge_user-Ticks env user rate now free (some row) db =
    apply_charge-Ticks env user now (tick_charge (env.scan row.total_storage_bytes) free rate) db

abbrev pub NeverFails : Env → Type 0
NeverFails env = (s : Stmt) (user : String) → env.fails s user ≡ false

apply_charge_total :
    (env : Env) (user : String) (now : ℕ) (charge : Option ℤ) (db : Db)
    → NeverFails env
    → (db' : Db) × (apply_charge env user now charge db ≡ ok (tt, db'))
unfolding apply_charge
apply_charge_total env user now none db f = (db, refl)
apply_charge_total env user now (some charge) db f = (
  record db {
    accumulators =
        insert user (add_charge charge now (lookup user db.accumulators)) db.accumulators;
  },
  rw (f upsert_accumulator user) refl,
)

outcome-Ticks :
    (user : String) (charge : ℤ) (db : Db) (r : Result (Unit {0} × Db)) (db' : Db)
    → r ≡ ok (tt, db')
    → Ensures (λ u d. Ticks user charge db d) r
    → Ticks user charge db (tick_outcome r db).0 × ((tick_outcome r db).1 ≡ true)
outcome-Ticks user charge db (ok (u, d)) db' e t = (t, refl)
outcome-Ticks user charge db (err x) db' e t = cc

module _ (env : Env) (rate : Rate) (now : ℕ) (cfg : BillingConfig) where
  abbrev pub charge_of_row : Option UserRow → ℤ
  charge_of_row = charge_of env rate.microcents_per_gib_per_hour cfg.free_baseline_bytes

  pub tick_user-Ticks :
      (user : String) (db : Db)
      → Ensures
          (λ u db'. Ticks user (charge_of_row (lookup user db.users)) db db')
          (tick_user env user (some rate) now cfg.free_baseline_bytes db)
  unfolding tick_user
  tick_user-Ticks user db =
      Ensures-if (λ u db'. Ticks user (charge_of_row (lookup user db.users)) db db')
        (str_eq user "") empty_username (tick_known env user rate now cfg.free_baseline_bytes db)
        (Ensures-query (λ u db'. Ticks user (charge_of_row (lookup user db.users)) db db') env
          select_storage user (λ d. lookup user d.users)
          (charge_user env user rate.microcents_per_gib_per_hour now cfg.free_baseline_bytes) db
          (charge_user-Ticks env user rate.microcents_per_gib_per_hour now cfg.free_baseline_bytes
            (lookup user db.users) db))

  tick_user_total :
      (user : String) (row : UserRow) (db : Db)
      → NeverFails env
      → str_eq user "" ≡ false
      → lookup user db.users ≡ some row
      → (db' : Db) × (tick_user env user (some rate) now cfg.free_baseline_bytes db ≡ ok (tt, db'))
  unfolding tick_user charge_user
  tick_user_total user row db f n e =
      let (db', done) =
        apply_charge_total env user now
          (tick_charge (env.scan row.total_storage_bytes) cfg.free_baseline_bytes
            rate.microcents_per_gib_per_hour)
          db f in
      (
        db',
        rw n (
            query_bind env select_storage user (f select_storage user) (λ d. lookup user d.users)
              (charge_user env user rate.microcents_per_gib_per_hour now cfg.free_baseline_bytes) db
            ∙ rw e done),
      )

  -- One user of the loop, where no statement fails.
  pub tick_listed-Ticks :
      (user : String) (row : UserRow) (db : Db)
      → NeverFails env
      → str_eq user "" ≡ false
      → lookup user db.users ≡ some row
      → Ticks user (charge_of_row (some row)) db (tick_listed env rate now cfg user db).0
        × ((tick_listed env rate now cfg user db).1 ≡ true)
  unfolding tick_listed
  tick_listed-Ticks user row db f n e =
      if_false (λ (r : Db × Bool). Ticks user (charge_of_row (some row)) db r.0 × (r.1 ≡ true))
        (env.fails scan_row user) (db, false)
        (tick_outcome (tick_user env user (some rate) now cfg.free_baseline_bytes db) db)
        (f scan_row user)
        (outcome-Ticks user (charge_of_row (some row)) db
          (tick_user env user (some rate) now cfg.free_baseline_bytes db)
          (tick_user_total user row db f n e).0 (tick_user_total user row db f n e).1
          (rw e at (tick_user-Ticks user db)))
