-- ===== src/Billing/Totality.antt =====
-- Where no statement fails, the transactions of billing/ succeed on valid arguments.
use arkfile.Base.{ℕ, ◌≡◌, refl, Bool, true, false, Option, none, some, String, str_eq}
use arkfile.Base.Int.{ℤ, pos, ltb_ℤ}
use arkfile.Base.Table.{lookup, insert}
use arkfile.Billing.State.{
  Db, Env, Result, ok, err, ◌>>◌, ◌>>=◌, run_tx, select_balance, insert_credits, update_balance,
  insert_transaction, reset_accumulator, begin, commit,
}
use arkfile.Billing.Balance.{create_if_missing, read_or_create_balance, write_balance, append_row}
use arkfile.Billing.MeterLaws.{NeverFails}
use arkfile.Billing.Meter.{Rate}
use arkfile.Billing.Gift.{gift_row, gift_body, gift_credits}
use arkfile.Billing.Payments.{
  has_transaction_id, append_unique, payment_row, pay_balance, process_payment_in_tx,
  process_payment,
}
use arkfile.Billing.Sweep.{usage_row, reset_unbilled, settle_user_body, settle_one_user}

abbrev pub is_ok {ℓ} : {A : Type ℓ} → Result A → Bool
is_ok (ok a) = true
is_ok (err e) = false

-- The balance is read or made, and no ledger row is touched.
created :
    (env : Env) (user : String) (o : Option ℤ) (db : Db)
    → NeverFails env
    → (b : ℤ) × (after : Db) × (create_if_missing env user o db ≡ ok (b, after))
      × (after.credit_transactions ≡ db.credit_transactions)
unfolding create_if_missing
created env user none db f = (
  pos 0,
  record db { user_credits = insert user (pos 0) db.user_credits },
  rw (f insert_credits user, ◌>>◌, ◌>>=◌) refl,
  refl,
)
created env user (some balance) db f = (env.scan balance, db, refl, refl)

read_total :
    (env : Env) (user : String) (db : Db)
    → NeverFails env
    → (b : ℤ) × (after : Db) × (read_or_create_balance env user db ≡ ok (b, after))
      × (after.credit_transactions ≡ db.credit_transactions)
unfolding read_or_create_balance
read_total env user db f =
    let (b, after, done, rows) = created env user (lookup user db.user_credits) db f in
    (b, after, rw (f select_balance user, ◌>>=◌) done, rows)

-- Where no statement fails, the settlement of a user succeeds.
pub settle_one_user-is_ok :
    (env : Env) (rate : Rate) (now : ℕ) (user : String) (drained : ℤ) (billed : Option String)
    (db : Db)
    → NeverFails env
    → is_ok (settle_one_user env rate now user drained billed db).1 ≡ true
unfolding settle_one_user settle_user_body write_balance append_row reset_unbilled usage_row
settle_one_user-is_ok env rate now user drained billed db f =
    let (b, after, done, rows) = read_total env user db f in
    rw
      (
        run_tx,
        ◌>>◌,
        ◌>>=◌,
        f begin user,
        done,
        f update_balance user,
        f insert_transaction user,
        f reset_accumulator user,
        f commit user,
      )
      refl

-- Where no statement fails, a gift of a positive amount, with a user, a reason and an
-- administrator, succeeds.
gift_credits-is_ok :
    (env : Env) (user : String) (amount : ℤ) (reason admin : String) (db : Db)
    → NeverFails env
    → str_eq user "" ≡ false
    → ltb_ℤ (pos 0) amount ≡ true
    → str_eq reason "" ≡ false
    → str_eq admin "" ≡ false
    → is_ok (gift_credits env user amount reason admin db).1 ≡ true
unfolding gift_credits gift_body write_balance append_row gift_row
gift_credits-is_ok env user amount reason admin db f u a r d =
    let (b, after, done, rows) = read_total env user db f in
    rw
      (
        u,
        a,
        r,
        d,
        run_tx,
        ◌>>◌,
        ◌>>=◌,
        f begin user,
        done,
        f update_balance user,
        f insert_transaction user,
        f commit user,
      )
      refl

-- Where no statement fails, a payment of a positive amount, with a user and a provider transaction
-- that has no row, succeeds.
pub process_payment-is_ok :
    (env : Env) (user : String) (amount : ℤ) (id payment_type : String) (db : Db)
    → NeverFails env
    → str_eq user "" ≡ false
    → ltb_ℤ (pos 0) amount ≡ true
    → str_eq id "" ≡ false
    → has_transaction_id id db.credit_transactions ≡ false
    → is_ok (process_payment env user amount id payment_type db).1 ≡ true
unfolding process_payment process_payment_in_tx pay_balance append_unique write_balance append_row
    payment_row
process_payment-is_ok env user amount id payment_type db f u a i n =
    let (b, after, done, rows) = read_total env user db f in
    rw
      (
        run_tx,
        ◌>>◌,
        ◌>>=◌,
        f begin user,
        u,
        a,
        i,
        done,
        f update_balance user,
        rows,
        n,
        f insert_transaction user,
        f commit user,
      )
      refl
