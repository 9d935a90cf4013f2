-- ===== src/Billing/Duplicates.antt =====
-- What a payment's transaction has written where its insert into the ledger fails.
use arkfile.Base.{
  ◌≤◌, ◌^◌, ◌≡◌, refl, Bool, true, false, not, Option, none, some, String, str_eq, if◌then◌else◌,
}
use mathlib.Core.Bool.{false≢true}
use arkfile.Base.Int.{ℤ, pos, abs, ◌+ℤ◌, add64, ltb_ℤ}
use arkfile.Billing.State.{
  CreditTransaction, Db, Env, IsExact, BillingError, Result, ok, err, balance_of, empty_username,
  not_positive, empty_transaction_id, Tx, pure, insert_credits, select_balance, update_balance,
}
use arkfile.Billing.Balance.{read_or_create_balance, create_if_missing, write_balance}
use arkfile.Billing.Triples.{Ensures}
use arkfile.Billing.Ledger.{write_append-Posts}
use arkfile.Billing.Payments.{
  payment_row, append_unique, of_insert, pay_balance, after_balance, process_payment_in_tx,
  is_duplicate_transaction_id_error,
}
use arkfile.Billing.PaymentLaws.{Paid, pay_balance-Paid}

-- One user's balance has the amount in addition.
abbrev pub Adds : String → ℤ → Db → Db → Type 0
Adds user amount db db' =
    (v : String)
    → balance_of db' v ≡ (if str_eq user v then balance_of db v +ℤ amount else balance_of db v)

-- No error is taken for that of a duplicate.
abbrev HasOtherError : {A : Type 0} → Result A → Type 0
HasOtherError (ok a) = Unit
HasOtherError (err e) = is_duplicate_transaction_id_error e ≡ false

other_if :
    {A : Type 0} (c : Bool) (e : BillingError) (r : Result A)
    → is_duplicate_transaction_id_error e ≡ false
    → HasOtherError r
    → HasOtherError (if c then err e else r)
other_if true e r other h = other
other_if false e r other h = h

other_bind :
    {A B : Type 0} (r : Result (B × Db)) (f : B → Tx A)
    → HasOtherError r
    → ((b : B) (db : Db) → HasOtherError (f b db))
    → HasOtherError (elim r [ ok (b, db) ↦ f b db | err e ↦ err e ])
other_bind (ok (b, db)) f h k = k b db
other_bind (err e) f h k = h

create_if_missing-HasOtherError :
    (env : Env) (user : String) (o : Option ℤ) (db : Db)
    → HasOtherError (create_if_missing env user o db)
unfolding create_if_missing is_duplicate_transaction_id_error
create_if_missing-HasOtherError env user none db =
    other_bind _ (λ u. pure (pos 0)) (other_if (env.fails insert_credits user) _ _ refl tt)
      (λ u db'. tt)
create_if_missing-HasOtherError env user (some b) db = tt

module _ (env : Env) (user : String) (amount : ℤ) (id payment_type : String) where
  -- If the error is taken for a duplicate, the balance has been written.
  abbrev pub Leaves : Db → Result CreditTransaction × Db → Type 0
  Leaves db (ok row, db') = Unit
  Leaves db (err e, db') = is_duplicate_transaction_id_error e ≡ true → Adds user amount db db'

  pay_balance-HasOtherError : (db : Db) → HasOtherError (pay_balance env user amount db)
  unfolding pay_balance read_or_create_balance write_balance is_duplicate_transaction_id_error
  pay_balance-HasOtherError db =
      other_bind _ _
        (other_bind _ (create_if_missing env user)
          (other_if (env.fails select_balance user) _ _ refl tt)
          (create_if_missing-HasOtherError env user))
        (λ current db₁.
          other_bind _ (λ u. pure (add64 current amount))
            (other_if (env.fails update_balance user) _ _ refl tt) (λ u db₂. tt))

  Paid-Adds :
      (db db₁ : Db) (balance : ℤ)
      → Paid env user amount id payment_type db balance db₁
      → Adds user amount db db₁
  unfolding balance_of payment_row
  Paid-Adds db db₁ balance p v = rw p.1.written (
      (write_append-Posts user amount balance (payment_row user amount balance id payment_type)
          p.1.view db p.1.same refl refl p.0).balances
        v)

  of_insert-Leaves :
      (db db₁ : Db) (row : CreditTransaction) (r : Result (Unit {0} × Db))
      → Adds user amount db db₁
      → Leaves db (of_insert row db₁ r)
  of_insert-Leaves db db₁ row (ok (u, db')) a = tt
  of_insert-Leaves db db₁ row (err e) a = λ h. a

  after_balance-Leaves :
      (db : Db) (r : Result (ℤ × Db))
      → HasOtherError r
      → Ensures (Paid env user amount id payment_type db) r
      → Leaves db (after_balance env user amount id payment_type db r)
  after_balance-Leaves db (err e) other h = λ d. absurd (false≢true (rw other at d))
  after_balance-Leaves db (ok (balance, db₁)) other h =
      of_insert-Leaves db db₁ (payment_row user amount balance id payment_type)
        (append_unique env id (payment_row user amount balance id payment_type) db₁)
        (Paid-Adds db db₁ balance h)

  Leaves-if :
      (db : Db) (c : Bool) (e : BillingError) (r : Result CreditTransaction × Db)
      → is_duplicate_transaction_id_error e ≡ false
      → Leaves db r
      → Leaves db (if c then (err e, db) else r)
  Leaves-if db true e r other h = λ d. absurd (false≢true (rw other at d))
  Leaves-if db false e r other h = h

  pub process_payment_in_tx-Leaves :
      (db : Db)
      → IsExact env
      → abs (balance_of db user) ≤ 2 ^ 53
      → abs amount ≤ 2 ^ 53
      → Leaves db (process_payment_in_tx env user amount id payment_type db)
  unfolding process_payment_in_tx is_duplicate_transaction_id_error
  process_payment_in_tx-Leaves db x h k = Leaves-if db (str_eq user "") empty_username _ refl (
      Leaves-if db (not (ltb_ℤ (pos 0) amount)) not_positive _ refl (
        Leaves-if db (str_eq id "") empty_transaction_id _ refl (
          after_balance-Leaves db (pay_balance env user amount db) (pay_balance-HasOtherError db)
            (pay_balance-Paid env user amount id payment_type db x h k))))
