-- ===== src/Billing/TickLaws.antt =====
-- The hourly tick over all users: who is charged, and how much.
use arkfile.Base.{
  ℕ, suc, ◌+◌, ◌≡◌, refl, Bool, true, false, ◌||◌, Option, none, some, List, [], ◌∷◌, String,
  str_eq, if◌then◌else◌, arith, length, Bool-cases, inl, inr, eq_iff, if_false, ◌∙◌,
}
use arkfile.Base.Int.{◌+ℤ◌}
use arkfile.Base.Table.{IsUnique, str_eq_refl, Table, lookup}
use arkfile.Billing.State.{UserRow, Db, Env, Result, ok, err, list_users, db_error}
use arkfile.Billing.Meter.{
  Rate, BillingConfig, is_billable, billable_users, tick_listed, tick_loop, tick_all_active_users,
  bump,
}
use native.Mathlib.Nat.{zero-add}
use arkfile.Billing.MeterLaws.{unbilled_of, Ticks, NeverFails, charge_of_row, tick_listed-Ticks}

abbrev pub contains : String → List String → Bool
contains v [] = false
contains v (name ∷ names) = str_eq name v || contains v names

module _ (env : Env) (rate : Rate) (now : ℕ) (cfg : BillingConfig) where
  -- The names are distinct, none is empty, and each has its row.
  abbrev pub AreListed : Table UserRow → List String → Type 0
  AreListed users [] = Unit
  AreListed users (name ∷ names) =
      (str_eq name "" ≡ false)
      × ((row : UserRow) × (lookup name users ≡ some row))
      × (contains name names ≡ false)
      × AreListed users names

  -- What the loop over the names does to one user's unbilled amount.
  abbrev pub LoopTicks : List String → ℕ × ℕ → Db → Db × (ℕ × ℕ) → Type 0
  LoopTicks names counts db (db', counts') =
      ((v : String)
        → unbilled_of db' v ≡ (
            if contains v names
            then unbilled_of db v +ℤ charge_of_row env rate now cfg (lookup v db.users)
            else unbilled_of db v))
      × (db'.user_credits ≡ db.user_credits)
      × (db'.credit_transactions ≡ db.credit_transactions)
      × (counts' ≡ (counts.0 + length names, counts.1))

  loop_step :
      (name : String) (names : List String) (counts : ℕ × ℕ) (db db₁ : Db) (billed : Bool)
      (r : Db × (ℕ × ℕ))
      → Ticks name (charge_of_row env rate now cfg (lookup name db.users)) db db₁
      → contains name names ≡ false
      → billed ≡ true
      → LoopTicks names (bump billed counts) db₁ r
      → LoopTicks (name ∷ names) counts db r
  loop_step name names counts db db₁ false (db₂, counts₂) t c b h = cc
  loop_step name names counts db db₁ true (db₂, counts₂) t c b h = (
    λ v. ground (arith, h.0 v, t.unbilled v, eq_iff name v, t.users),
    h.1 ∙ t.credits,
    h.2 ∙ t.rows,
    h.3 ∙ ground arith,
  )

  pub tick_loop-Ticks :
      (names : List String) (counts : ℕ × ℕ) (db : Db)
      → NeverFails env
      → AreListed db.users names
      → LoopTicks names counts db (tick_loop env rate now cfg names counts db)
  unfolding tick_loop
  tick_loop-Ticks [] counts db f a = (λ v. refl, refl, refl, ground arith)
  tick_loop-Ticks (name ∷ names) counts db f (n, (row, e), c, a) =
      let (t, billed) = tick_listed-Ticks env rate now cfg name row db f n e in
      let (db₁, b) = tick_listed env rate now cfg name db in
      loop_step name names counts db db₁ b (tick_loop env rate now cfg (name ∷ names) counts db)
        (rw e t) c billed (tick_loop-Ticks names (bump b counts) db₁ f (rw t.users a))

-- The names that the tick lists are those of the billable rows, each once.
lookup-none-contains :
    (cfg : BillingConfig) (v : String) (m : Table UserRow)
    → lookup v m ≡ none
    → contains v (billable_users cfg m) ≡ false
unfolding lookup billable_users
lookup-none-contains cfg v [] e = refl
lookup-none-contains cfg v ((k, row) ∷ m) e = ground (arith, lookup-none-contains cfg v m)

-- Who is billed, by approval, by whether admins are included, and by the admin flag.
abbrev pub due : Bool → Bool → Option Bool → Bool
due false include_admins admin = false
due true true admin = true
due true false none = true
due true false (some true) = false
due true false (some false) = true

abbrev pub is_due : BillingConfig → Option UserRow → Bool
is_due cfg none = false
is_due cfg (some row) = due row.is_approved cfg.include_admins row.is_admin

is_billable-due :
    (cfg : BillingConfig) (row : UserRow) → is_billable cfg row ≡ is_due cfg (some row)
unfolding is_billable
is_billable-due cfg row = ground arith

-- The number of users that are billed.
abbrev pub count_due : BillingConfig → Table UserRow → ℕ
count_due cfg [] = 0
count_due cfg ((name, row) ∷ m) =
    let rest = count_due cfg m in if is_due cfg (some row) then suc rest else rest

length-billable :
    (cfg : BillingConfig) (m : Table UserRow) → length (billable_users cfg m) ≡ count_due cfg m
unfolding billable_users
length-billable cfg [] = refl
length-billable cfg ((name, row) ∷ m) =
    ground (arith, length-billable cfg m, is_billable-due cfg row)

contains-billable :
    (cfg : BillingConfig) (v : String) (m : Table UserRow)
    → IsUnique m
    → contains v (billable_users cfg m) ≡ is_due cfg (lookup v m)
unfolding lookup billable_users
contains-billable cfg v [] u = refl
contains-billable cfg v ((k, row) ∷ m) u =
    ground (arith, contains-billable cfg v m u.1, eq_iff k v, lookup-none-contains cfg k m u.0)

-- Each listed name has its row in the whole table.
IsWithin : Table UserRow → Table UserRow → Type 0
IsWithin m users =
    (k : String) (row : UserRow)
    → lookup k m ≡ some row
    → (row' : UserRow) × (lookup k users ≡ some row')

IsWithin-tail :
    (k : String) (row : UserRow) (m users : Table UserRow)
    → IsWithin ((k, row) ∷ m) users
    → IsWithin m users
unfolding IsWithin lookup
IsWithin-tail k row m users w j found e = elim (Bool-cases (str_eq k j)) [
  | inl same ↦ w j row (rw same refl)
  | inr other ↦ w j found (rw other e)
]

listed-cons :
    (env : Env) (rate : Rate) (now : ℕ) (cfg : BillingConfig) (users : Table UserRow) (k : String)
    (row : UserRow) (names : List String) (billable : Bool)
    → str_eq k "" ≡ false
    → (row' : UserRow) × (lookup k users ≡ some row')
    → contains k names ≡ false
    → AreListed env rate now cfg users names
    → AreListed env rate now cfg users (if billable then k ∷ names else names)
listed-cons env rate now cfg users k row names true n e c a = (n, e, c, a)
listed-cons env rate now cfg users k row names false n e c a = a

billable-AreListed :
    (env : Env) (rate : Rate) (now : ℕ) (cfg : BillingConfig) (m users : Table UserRow)
    → IsUnique m
    → lookup "" m ≡ none
    → IsWithin m users
    → AreListed env rate now cfg users (billable_users cfg m)
unfolding billable_users IsWithin lookup
billable-AreListed env rate now cfg [] users u z w = tt
billable-AreListed env rate now cfg ((k, row) ∷ m) users u z w =
    let rest =
      billable-AreListed env rate now cfg m users u.1 (ground (arith, eq_iff k ""))
        (IsWithin-tail k row m users w) in
    listed-cons env rate now cfg users k row (billable_users cfg m) (is_billable cfg row)
      (ground (arith, eq_iff k "")) (w k row (rw (str_eq_refl k) refl))
      (lookup-none-contains cfg k m u.0) rest

-- What a tick of all users is meant to leave.
abbrev pub AllTicked : Env → Rate → ℕ → BillingConfig → Db → Db × Result (ℕ × ℕ) → Type 0
AllTicked env rate now cfg db (db', r) =
    ((v : String)
      → unbilled_of db' v ≡ (
          if is_due cfg (lookup v db.users)
          then unbilled_of db v +ℤ charge_of_row env rate now cfg (lookup v db.users)
          else unbilled_of db v))
    × (db'.user_credits ≡ db.user_credits)
    × (db'.credit_transactions ≡ db.credit_transactions)
    × (r ≡ ok (count_due cfg db.users, 0))

all_ticked :
    (env : Env) (rate : Rate) (now : ℕ) (cfg : BillingConfig) (db : Db) (r : Db × (ℕ × ℕ))
    → IsUnique db.users
    → LoopTicks env rate now cfg (billable_users cfg db.users) (0, 0) db r
    → AllTicked env rate now cfg db (r.0, ok r.1)
all_ticked env rate now cfg db r u h = (
  λ v. rw (← contains-billable cfg v db.users u) (h.0 v),
  h.1,
  h.2,
  rw (h.3, zero-add, length-billable cfg db.users) refl,
)

-- A tick of all users, where no statement fails, no user stands twice and none has an empty name: it
-- adds to the unbilled amount of every user that is approved, and no admin unless admins are
-- included, exactly the charge of that user's stored bytes; it changes nobody else's amount, no
-- balance and no ledger row, and reports the number of those users and no error.
pub tick_all_active_users-charges :
    (env : Env) (rate : Rate) (now : ℕ) (cfg : BillingConfig) (db : Db)
    → NeverFails env
    → IsUnique db.users
    → lookup "" db.users ≡ none
    → AllTicked env rate now cfg db (tick_all_active_users env (some rate) now cfg db)
unfolding tick_all_active_users IsWithin
tick_all_active_users-charges env rate now cfg db f u z =
    let names = billable_users cfg db.users in
    let (db', counts) = tick_loop env rate now cfg names (0, 0) db in
    if_false (AllTicked env rate now cfg db) (env.fails list_users "")
      (db, err (db_error list_users)) (db', ok counts) (f list_users "")
      (all_ticked env rate now cfg db (db', counts) u
        (tick_loop-Ticks env rate now cfg names (0, 0) db f
          (billable-AreListed env rate now cfg db.users db.users u z (λ k row e. (row, e)))))
