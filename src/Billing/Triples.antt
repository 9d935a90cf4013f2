-- ===== src/Billing/Triples.antt =====
-- Rules for the transactions of billing/: what holds when a body ends without an error, and what a
-- whole transaction leaves on either outcome.
use arkfile.Base.{◌≡◌, refl, Bool, true, false, String, if◌then◌else◌}
use arkfile.Billing.State.{
  Db, Env, Stmt, BillingError, Result, ok, err, Tx, ◌>>=◌, ◌>>◌, exec, query, begin, commit,
  db_error, require, run_tx,
}

-- If the body succeeds, `Q` holds of its result and the tables.
abbrev pub Ensures : {A : Type 0} → (A → Db → Type 0) → Result (A × Db) → Type 0
Ensures Q (ok (a, db)) = Q a db
Ensures Q (err e) = Unit

-- A call that began at `db`: on success `Q` holds of its result and the new tables; on an error
-- the tables are as they were.
abbrev pub Atomic : {A : Type 0} → Db → (A → Db → Type 0) → Db × Result A → Type 0
Atomic db Q (db', ok a) = Q a db'
Atomic db Q (db', err e) = db' ≡ db

pub Ensures-if :
    {A : Type 0} (Q : A → Db → Type 0) (c : Bool) (e : BillingError) (r : Result (A × Db))
    → Ensures Q r
    → Ensures Q (if c then err e else r)
Ensures-if Q true e r h = tt
Ensures-if Q false e r h = h

-- The test that is passed is known to be false.
pub Ensures-unless :
    {A : Type 0} (Q : A → Db → Type 0) (c : Bool) (e : BillingError) (r : Result (A × Db))
    → (c ≡ false → Ensures Q r)
    → Ensures Q (if c then err e else r)
Ensures-unless Q true e r h = tt
Ensures-unless Q false e r h = h refl

module _ {A : Type 0} (Q : A → Db → Type 0) where
  bind_result :
      {B : Type 0} (P : B → Db → Type 0) (r : Result (B × Db)) (f : B → Tx A)
      → Ensures P r
      → ((b : B) (db' : Db) → P b db' → Ensures Q (f b db'))
      → Ensures Q (elim r [ ok (a, db') ↦ f a db' | err x ↦ err x ])
  bind_result P (ok (b, db')) f h k = k b db' h
  bind_result P (err e) f h k = tt

  pub Ensures-exec :
      (env : Env) (s : Stmt) (user : String) (g : Db → Db) (f : Unit {0} → Tx A) (db : Db)
      → Ensures Q (f tt (g db))
      → Ensures Q ((exec env s user g >>= f) db)
  Ensures-exec env s user g f db h =
      bind_result (λ u db'. Ensures Q (f u db')) (exec env s user g db) f
        (Ensures-if (λ u db'. Ensures Q (f u db')) (env.fails s user) (db_error s) (ok (tt, g db))
          h)
        (λ u db' k. k)

  pub Ensures-query :
      {B : Type 0} (env : Env) (s : Stmt) (user : String) (g : Db → B) (f : B → Tx A) (db : Db)
      → Ensures Q (f (g db) db)
      → Ensures Q ((query env s user g >>= f) db)
  Ensures-query env s user g f db h =
      bind_result (λ b db'. Ensures Q (f b db')) (query env s user g db) f
        (Ensures-if (λ b db'. Ensures Q (f b db')) (env.fails s user) (db_error s) (ok (g db, db))
          h)
        (λ b db' k. k)

  pub Ensures-require :
      (c : Bool) (e : BillingError) (f : Unit {0} → Tx A) (db : Db)
      → (c ≡ true → Ensures Q (f tt db))
      → Ensures Q ((require c e >>= f) db)
  Ensures-require true e f db h = h refl
  Ensures-require false e f db h = tt

  pub Ensures-bind :
      {B : Type 0} (P : B → Db → Type 0) (m : Tx B) (f : B → Tx A) (db : Db)
      → Ensures P (m db)
      → ((b : B) (db' : Db) → P b db' → Ensures Q (f b db'))
      → Ensures Q ((m >>= f) db)
  Ensures-bind P m f db h k = bind_result P (m db) f h k

  commit-Atomic :
      (c : Bool) (r : Result (A × Db)) (db : Db)
      → Ensures Q r
      → Atomic db Q (elim r [
        | ok (a, db') ↦ if c then (db, err (db_error commit)) else (db', ok a)
        | err e ↦ (db, err e)
      ])
  commit-Atomic true (ok (a, db')) db h = refl
  commit-Atomic false (ok (a, db')) db h = h
  commit-Atomic c (err e) db h = refl

  pub run_tx-Atomic :
      (env : Env) (user : String) (body : Tx A) (db : Db)
      → Ensures Q (body db)
      → Atomic db Q (run_tx env user body db)
  run_tx-Atomic env user body db h =
      commit-Atomic (env.fails commit user) ((exec env begin user (λ d. d) >> body) db) db
        (Ensures-exec env begin user (λ d. d) (λ u. body) db h)

-- Where no statement fails, a step does what it says.
module _ {A : Type 0} (env : Env) (s : Stmt) (user : String) (fine : env.fails s user ≡ false) where
  pub query_bind :
      {B : Type 0} (g : Db → B) (f : B → Tx A) (db : Db)
      → (query env s user g >>= f) db ≡ f (g db) db
  query_bind g f db = rw (fine, ◌>>=◌) refl

  pub exec_bind :
      (g : Db → Db) (f : Unit {0} → Tx A) (db : Db) → (exec env s user g >>= f) db ≡ f tt (g db)
  exec_bind g f db = rw (fine, ◌>>=◌) refl
