-- ===== src/Billing/Conservation.antt =====
-- The daily sweep bills each user's accumulated charge once.
use arkfile.Base.{
  ℕ, ◌≤◌, ◌^◌, ◌≡◌, refl, Bool, true, false, ◌||◌, none, some, List, [], ◌∷◌, String, str_eq, arith,
  eq_iff, if◌then◌else◌, or_false, Bool-cases, inl, inr, ◌∙◌, sym,
}
use arkfile.Base.Int.{ℤ, pos, abs, ◌+ℤ◌, ◌-ℤ◌, ltb_ℤ, int_laws}
use arkfile.Base.Table.{IsUnique, str_eq_refl, str_eq_comm, Table, lookup}
use arkfile.Billing.State.{
  Accumulator, Db, Env, IsExact, Result, ok, err, db_error, scan_row, list_accumulators, balance_of,
}
use arkfile.Billing.Triples.{Atomic}
use arkfile.Billing.Ledger.{IsBalanced, Posts-IsBalanced}
use arkfile.Billing.Meter.{Rate}
use arkfile.Billing.MeterLaws.{unbilled_of}
use arkfile.Billing.SweepLaws.{Settles, settle_one_user-Atomic}
use arkfile.Billing.Sweep.{
  Pending, SweepSummary, settle_one_user, read_queue, cons_pending, summarise, sweep_loop,
  sweep_queue, sweep_all_users,
}

-- What a user owns once everything accumulated is billed.
pub net : Db → String → ℤ
net db user = balance_of db user -ℤ unbilled_of db user

-- The step bills nobody twice and forgets no charge: every net balance is as before, and so are
-- the amounts of all users but one.
pub record Bills (user : String) (before after : Db) : Type 0 where
  nets : (v : String) → net after v ≡ net before v
  balances : (v : String) → str_eq user v ≡ false → balance_of after v ≡ balance_of before v
  unbilled : (v : String) → str_eq user v ≡ false → unbilled_of after v ≡ unbilled_of before v
  books : IsBalanced before → IsBalanced after

move_drained : (b d : ℤ) → b +ℤ (pos 0 -ℤ d) -ℤ pos 0 ≡ b -ℤ d
move_drained b d = omega int_laws

pub settle-Bills :
    (user : String) (drained : ℤ) (db : Db) (r : Db × Result ℤ)
    → drained ≡ unbilled_of db user
    → Atomic db (Settles user drained db) r
    → Bills user db r.0
unfolding net
settle-Bills user drained db (db', ok balance) e s = record {
  nets = λ v. ground (
    arith,
    s.posts.balances v,
    s.unbilled v,
    eq_iff user v,
    move_drained (balance_of db user) drained,
    e,
  );
  balances = λ v other. ground (arith, s.posts.balances v);
  unbilled = λ v other. ground (arith, s.unbilled v);
  books = Posts-IsBalanced user (pos 0 -ℤ drained) db db' s.posts;
}
settle-Bills user drained db (db', err x) e same = rw same (record {
  nets = λ v. refl;
  balances = λ v other. refl;
  unbilled = λ v other. refl;
  books = λ b. b;
})

-- A queue that was read from these tables: distinct users with their unbilled amounts.
abbrev pub contains : String → List Pending → Bool
contains v [] = false
contains v (p ∷ queue) = str_eq p.username v || contains v queue

abbrev pub AreQueued : Db → List Pending → Type 0
AreQueued db [] = Unit
AreQueued db (p ∷ queue) =
    (p.unbilled_microcents ≡ unbilled_of db p.username)
    × (abs (balance_of db p.username) ≤ 2 ^ 53)
    × (abs p.unbilled_microcents ≤ 2 ^ 53)
    × (contains p.username queue ≡ false)
    × AreQueued db queue

pub AreQueued-Bills :
    (user : String) (before after : Db) (queue : List Pending)
    → Bills user before after
    → contains user queue ≡ false
    → AreQueued before queue
    → AreQueued after queue
AreQueued-Bills user before after [] b c a = tt
AreQueued-Bills user before after (p ∷ queue) b c (e, h, k, d, a) =
    let (here, later) = or_false (str_eq p.username user) (contains user queue) c in
    let other = str_eq_comm user p.username ∙ here in
    (
      e ∙ sym (b.unbilled p.username other),
      rw (b.balances p.username other) h,
      k,
      d,
      AreQueued-Bills user before after queue b later a,
    )

sweep_loop-nets :
    (env : Env) (rate : Rate) (now : ℕ) (queue : List Pending) (s : SweepSummary) (db : Db)
    → IsExact env
    → AreQueued db queue
    → ((v : String) → net (sweep_loop env rate now queue s db).0 v ≡ net db v)
      × (IsBalanced db → IsBalanced (sweep_loop env rate now queue s db).0)
unfolding sweep_loop
sweep_loop-nets env rate now [] s db x a = (λ v. refl, λ b. b)
sweep_loop-nets env rate now (p ∷ queue) s db x (e, h, k, c, a) =
    let drained = p.unbilled_microcents in
    let (db₁, r) = settle_one_user env rate now p.username drained p.last_billed_at db in
    let bills =
      settle-Bills p.username drained db (db₁, r) e
        (settle_one_user-Atomic env rate now p.username drained p.last_billed_at db x h k) in
    let (nets, books) =
      sweep_loop-nets env rate now queue (summarise s drained r) db₁ x
        (AreQueued-Bills p.username db db₁ queue bills c a) in
    (λ v. nets v ∙ bills.nets v, λ b. books (bills.books b))

-- Every balance and every unbilled amount is an integer that a float64 holds.
abbrev pub AreInRange : Db → Type 0
AreInRange db =
    (user : String) → (abs (balance_of db user) ≤ 2 ^ 53) × (abs (unbilled_of db user) ≤ 2 ^ 53)

-- The rows of a part of the accumulators' table stand in the whole table.
unfoldable pub IsPart : Table Accumulator → Db → Type 0
IsPart m db =
    (user : String) (a : Accumulator)
    → lookup user m ≡ some a
    → lookup user db.accumulators ≡ some a

IsPart-tail :
    (k : String) (a : Accumulator) (m : Table Accumulator) (db : Db)
    → lookup k m ≡ none
    → IsPart ((k, a) ∷ m) db
    → IsPart m db
unfolding IsPart lookup
IsPart-tail k a m db fresh w j b e = elim (Bool-cases (str_eq k j)) [
  | inl same ↦ cc ((eq_iff k j).0 same)
  | inr other ↦ w j b (rw other e)
]

-- A queue without the name.
Lacks : String → Result (List Pending) → Type 0
Lacks user (err e) = Unit
Lacks user (ok queue) = contains user queue ≡ false

unfoldable pub Queued : Db → Result (List Pending) → Type 0
Queued db (err e) = Unit
Queued db (ok queue) = AreQueued db queue

read_queue-Lacks :
    (env : Env) (user : String) (m : Table Accumulator)
    → lookup user m ≡ none
    → Lacks user (read_queue env m)
unfolding read_queue Lacks lookup
read_queue-Lacks env user [] e = refl
read_queue-Lacks env user ((k, a) ∷ m) e = ground (arith, read_queue-Lacks env user m)

read_entry-Queued :
    (env : Env) (db : Db) (user : String) (a : Accumulator) (broken positive : Bool)
    (rest : Result (List Pending))
    → env.scan a.unbilled_microcents ≡ unbilled_of db user
    → abs (balance_of db user) ≤ 2 ^ 53
    → abs (unbilled_of db user) ≤ 2 ^ 53
    → Lacks user rest
    → Queued db rest
    → Queued db (
        if positive
        then (if broken then err (db_error scan_row) else cons_pending env user a rest)
        else rest)
unfolding Lacks Queued
read_entry-Queued env db user a broken false rest e h k l q = q
read_entry-Queued env db user a true true rest e h k l q = tt
read_entry-Queued env db user a false true (err x) e h k l q = tt
read_entry-Queued env db user a false true (ok queue) e h k l q = (e, h, rw e k, l, q)

entry_unbilled :
    (k : String) (a : Accumulator) (m : Table Accumulator) (db : Db)
    → IsPart ((k, a) ∷ m) db
    → a.unbilled_microcents ≡ unbilled_of db k
unfolding IsPart lookup unbilled_of
entry_unbilled k a m db w = rw (w k a (rw (str_eq_refl k) refl)) refl

pub read_queue-Queued :
    (env : Env) (m : Table Accumulator) (db : Db)
    → IsExact env
    → AreInRange db
    → IsUnique m
    → IsPart m db
    → Queued db (read_queue env m)
unfolding read_queue Queued
read_queue-Queued env [] db x r u w = tt
read_queue-Queued env ((k, a) ∷ m) db x r (fresh, u) w =
    let here = entry_unbilled k a m db w in
    read_entry-Queued env db k a (env.fails scan_row k) (ltb_ℤ (pos 0) a.unbilled_microcents)
      (read_queue env m) (x a.unbilled_microcents (rw here (r k).1) ∙ here) (r k).0 (r k).1
      (read_queue-Lacks env k m fresh)
      (read_queue-Queued env m db x r u (IsPart-tail k a m db fresh w))

-- What a sweep is meant to keep: every balance less what is still to be billed, and the books.
abbrev pub KeepsNets : Db → Db → Type 0
KeepsNets before after =
    ((user : String)
      → balance_of after user -ℤ unbilled_of after user
        ≡ balance_of before user -ℤ unbilled_of before user)
    × (IsBalanced before → IsBalanced after)

sweep_queue-KeepsNets :
    (env : Env) (rate : Rate) (now : ℕ) (r : Result (List Pending)) (db : Db)
    → IsExact env
    → Queued db r
    → KeepsNets db (sweep_queue env rate now r db).0
unfolding Queued net
sweep_queue-KeepsNets env rate now (err e) db x q = (λ user. refl, λ b. b)
sweep_queue-KeepsNets env rate now (ok queue) db x q =
    sweep_loop-nets env rate now queue
      (record {
        users_settled = 0;
        total_drained_microcents = pos 0;
        users_with_negative_balance = 0;
      })
      db x q

either-KeepsNets :
    (c : Bool) (db : Db) (r r' : Db × Result SweepSummary)
    → KeepsNets db r.0
    → KeepsNets db r'.0
    → KeepsNets db (if c then r else r').0
either-KeepsNets true db r r' h k = h
either-KeepsNets false db r r' h k = k

sweep_all_users-KeepsNets :
    (env : Env) (rate : Rate) (now : ℕ) (db : Db)
    → IsExact env
    → AreInRange db
    → IsUnique db.accumulators
    → KeepsNets db (sweep_all_users env (some rate) now db).0
unfolding sweep_all_users IsPart
sweep_all_users-KeepsNets env rate now db x r u =
    either-KeepsNets (env.fails list_accumulators "") db (db, err (db_error list_accumulators))
      (sweep_queue env rate now (read_queue env db.accumulators) db) (λ user. refl, λ b. b)
      (sweep_queue-KeepsNets env rate now (read_queue env db.accumulators) db x
        (read_queue-Queued env db.accumulators db x r u (λ user a e. e)))

-- The daily sweep, whichever statements fail and for whichever users, on balanced books: for every
-- user the balance less the unbilled amount is what it was before, so that no charge is lost or
-- billed twice, and the books stay balanced. For balances and unbilled amounts up to 2^53
-- microcents.
pub sweep_all_users-conserves :
    (env : Env) (rate : Rate) (now : ℕ) (db : Db)
    → IsExact env
    → AreInRange db
    → IsUnique db.accumulators
    → IsBalanced db
    → ((user : String)
        → balance_of (sweep_all_users env (some rate) now db).0 user
            -ℤ unbilled_of (sweep_all_users env (some rate) now db).0 user
          ≡ balance_of db user -ℤ unbilled_of db user)
      × IsBalanced (sweep_all_users env (some rate) now db).0
sweep_all_users-conserves env rate now db x r u b =
    let (nets, books) = sweep_all_users-KeepsNets env rate now db x r u in (nets, books b)
