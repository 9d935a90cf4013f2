-- ===== src/Billing/Completeness.antt =====
-- Where no statement fails, the daily sweep bills everything that has accumulated.
use arkfile.Base.{
  ℕ, ◌≡◌, refl, Bool, true, false, ◌||◌, Option, none, some, List, [], ◌∷◌, String, str_eq, arith,
  eq_iff, if◌then◌else◌, ◌∙◌, ap, if_false,
}
use arkfile.Base.Int.{ℤ, pos, ltb_ℤ}
use arkfile.Base.Table.{IsUnique, Table, lookup}
use arkfile.Billing.State.{
  Accumulator, Db, Env, IsExact, Result, ok, err, db_error, scan_row, list_accumulators,
}
use arkfile.Billing.Triples.{Atomic}
use arkfile.Billing.Meter.{Rate}
use arkfile.Billing.MeterLaws.{NeverFails, unbilled_of}
use arkfile.Billing.SweepLaws.{Settles, settle_one_user-Atomic}
use arkfile.Billing.Sweep.{
  Pending, SweepSummary, settle_one_user, read_queue, summarise, sweep_loop, sweep_queue,
  sweep_all_users,
}
use arkfile.Billing.Totality.{is_ok, settle_one_user-is_ok}
use arkfile.Billing.Conservation.{
  contains, AreQueued, AreQueued-Bills, settle-Bills, AreInRange, Queued, IsPart, read_queue-Queued,
}

settled_unbilled :
    (user v : String) (drained : ℤ) (db : Db) (r : Db × Result ℤ)
    → Atomic db (Settles user drained db) r
    → is_ok r.1 ≡ true
    → unbilled_of r.0 v ≡ (if str_eq user v then pos 0 else unbilled_of db v)
settled_unbilled user v drained db (db', ok balance) s t = s.unbilled v
settled_unbilled user v drained db (db', err e) s t = cc

either_zero :
    (here later : Bool) (between before : ℤ)
    → between ≡ (if here then pos 0 else before)
    → (if later then pos 0 else between) ≡ (if here || later then pos 0 else before)
either_zero true true between before e = refl
either_zero true false between before e = e
either_zero false true between before e = refl
either_zero false false between before e = e

sweep_loop-empties :
    (env : Env) (rate : Rate) (now : ℕ) (v : String) (queue : List Pending) (s : SweepSummary)
    (db : Db)
    → IsExact env
    → NeverFails env
    → AreQueued db queue
    → unbilled_of (sweep_loop env rate now queue s db).0 v
      ≡ (if contains v queue then pos 0 else unbilled_of db v)
unfolding sweep_loop
sweep_loop-empties env rate now v [] s db x f a = refl
sweep_loop-empties env rate now v (p ∷ queue) s db x f (e, h, k, c, a) =
    let user = p.username in
    let drained = p.unbilled_microcents in
    let (db₁, r) = settle_one_user env rate now user drained p.last_billed_at db in
    let atomic = settle_one_user-Atomic env rate now user drained p.last_billed_at db x h k in
    let here =
      settled_unbilled user v drained db (db₁, r) atomic
        (settle_one_user-is_ok env rate now user drained p.last_billed_at db f) in
    let later =
      sweep_loop-empties env rate now v queue (summarise s drained r) db₁ x f
        (AreQueued-Bills user db db₁ queue (settle-Bills user drained db (db₁, r) e atomic) c a) in
    later
    ∙ either_zero (str_eq user v) (contains v queue) (unbilled_of db₁ v) (unbilled_of db v) here

-- Something is to be billed.
abbrev is_due_entry : Option Accumulator → Bool
is_due_entry none = false
is_due_entry (some a) = ltb_ℤ (pos 0) a.unbilled_microcents

-- The queue is read, and has the users to whom something is to be billed.
ReadsDue : Table Accumulator → Result (List Pending) → Type 0
ReadsDue m r =
    (queue : List Pending) × (r ≡ ok queue)
    × ((v : String) → contains v queue ≡ is_due_entry (lookup v m))

entry_reads :
    (P : List Pending → Type 0) (positive : Bool) (p : Pending) (queue : List Pending)
    → (positive ≡ true → P (p ∷ queue))
    → (positive ≡ false → P queue)
    → (all : List Pending) × ((if positive then ok (p ∷ queue) else ok queue) ≡ ok all) × P all
entry_reads P true p queue y n = (p ∷ queue, refl, y refl)
entry_reads P false p queue y n = (queue, refl, n refl)

contains-due :
    (k v : String) (a : Accumulator) (m : Table Accumulator) (p : Pending) (queue : List Pending)
    → lookup k m ≡ none
    → p.username ≡ k
    → contains v queue ≡ is_due_entry (lookup v m)
    → ltb_ℤ (pos 0) a.unbilled_microcents ≡ true
    → contains v (p ∷ queue) ≡ is_due_entry (lookup v ((k, a) ∷ m))
unfolding lookup
contains-due k v a m p queue fresh n e t = ground (arith, eq_iff k v)

skips-due :
    (k v : String) (a : Accumulator) (m : Table Accumulator) (queue : List Pending)
    → lookup k m ≡ none
    → contains v queue ≡ is_due_entry (lookup v m)
    → ltb_ℤ (pos 0) a.unbilled_microcents ≡ false
    → contains v queue ≡ is_due_entry (lookup v ((k, a) ∷ m))
unfolding lookup
skips-due k v a m queue fresh e t = ground (arith, eq_iff k v)

read_queue-ReadsDue :
    (env : Env) (m : Table Accumulator)
    → NeverFails env
    → IsUnique m
    → ReadsDue m (read_queue env m)
unfolding read_queue ReadsDue lookup
read_queue-ReadsDue env [] f u = ([], refl, λ v. refl)
read_queue-ReadsDue env ((k, a) ∷ m) f (fresh, u) =
    let (queue, read, due) = read_queue-ReadsDue env m f u in
    let p : Pending = record {
      username = k;
      unbilled_microcents = env.scan a.unbilled_microcents;
      last_billed_at = a.last_billed_at;
    } in
    rw (f scan_row k, read)
      (entry_reads (λ all. (v : String) → contains v all ≡ is_due_entry (lookup v ((k, a) ∷ m)))
        (ltb_ℤ (pos 0) a.unbilled_microcents) p queue
        (λ t v. contains-due k v a m p queue fresh refl (due v) t)
        (λ t v. skips-due k v a m queue fresh (due v) t))

due-unbilled :
    (v : String) (db : Db)
    → is_due_entry (lookup v db.accumulators) ≡ ltb_ℤ (pos 0) (unbilled_of db v)
unfolding unbilled_of
due-unbilled v db = ground arith

-- Who has something unbilled is billed for it, and the rest is as it was.
abbrev pub BillsAll : Db → Db × Result SweepSummary → Type 0
BillsAll db (after, r) =
    (is_ok r ≡ true)
    × ((v : String)
        → unbilled_of after v
          ≡ (if ltb_ℤ (pos 0) (unbilled_of db v) then pos 0 else unbilled_of db v))

queue-BillsAll :
    (env : Env) (rate : Rate) (now : ℕ) (db : Db) (r : Result (List Pending))
    → IsExact env
    → NeverFails env
    → Queued db r
    → ReadsDue db.accumulators r
    → BillsAll db (sweep_queue env rate now r db)
unfolding Queued ReadsDue
queue-BillsAll env rate now db (err e) x f q (all, read, due) = cc
queue-BillsAll env rate now db (ok queue) x f q (all, read, due) =
    let same : queue ≡ all = cc in
    (
      refl,
      λ v.
          sweep_loop-empties env rate now v queue _ db x f q
          ∙ ap (λ b. if b then pos 0 else unbilled_of db v)
              (ap (contains v) same ∙ due v ∙ due-unbilled v db),
    )

-- A daily sweep in which no statement fails ends without an error, leaves nobody with a positive
-- unbilled amount and changes no other unbilled amount. For balances and unbilled amounts up to
-- 2^53 microcents, and no user with two accumulators.
pub sweep_all_users-BillsAll :
    (env : Env) (rate : Rate) (now : ℕ) (db : Db)
    → IsExact env
    → NeverFails env
    → AreInRange db
    → IsUnique db.accumulators
    → BillsAll db (sweep_all_users env (some rate) now db)
unfolding sweep_all_users IsPart
sweep_all_users-BillsAll env rate now db x f r u =
    if_false (BillsAll db) (env.fails list_accumulators "") (db, err (db_error list_accumulators))
      (sweep_queue env rate now (read_queue env db.accumulators) db) (f list_accumulators "")
      (queue-BillsAll env rate now db (read_queue env db.accumulators) x f
        (read_queue-Queued env db.accumulators db x r u (λ user a e. e))
        (read_queue-ReadsDue env db.accumulators f u))
