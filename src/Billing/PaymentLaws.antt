-- ===== src/Billing/PaymentLaws.antt =====
-- `ProcessPayment` posts a payment once for each provider transaction.
use arkfile.Base.{
  ◌≤◌, ◌^◌, ◌≡◌, refl, Bool, true, false, not, some, ◌∷◌, String, str_eq, if◌then◌else◌,
}
use arkfile.Base.Int.{ℤ, pos, abs, ◌+ℤ◌, add64, ltb_ℤ}
use arkfile.Base.Table.{insert}
use arkfile.Billing.State.{
  CreditTransaction, Db, Env, IsExact, BillingError, Tx, ◌>>◌, pure, Result, ok, err, balance_of,
  insert_transaction, update_balance, db_error, empty_username, not_positive, empty_transaction_id,
}
use arkfile.Billing.Balance.{read_or_create_balance, write_balance, append_row}
use arkfile.Billing.Triples.{
  Ensures, Atomic, Ensures-exec, Ensures-bind, Ensures-if, Ensures-unless, run_tx-Atomic,
}
use arkfile.Billing.Ledger.{SameBooks, ReadsBalance, read_or_create_balance_lem}
use arkfile.Billing.Posting.{Posted, write_append-Posted, add64_balance}
use arkfile.Billing.Payments.{
  payment_row, has_transaction_id, append_unique, of_insert, pay_balance, insert_payment,
  after_balance, process_payment_in_tx, or_rollback, process_payment,
}

-- A transaction's view in which only the new balance has been written.
pub record IsPaidView (user : String) (balance : ℤ) (db db₁ : Db) : Type 0 where
  pub view : Db
  pub same : SameBooks db view
  pub written : db₁ ≡ record view { user_credits = insert user balance view.user_credits }

module _ (env : Env) (user : String) (amount : ℤ) (id payment_type : String) where
  -- The balance that the insert sees.
  abbrev pub Paid : Db → ℤ → Db → Type 0
  Paid db balance db₁ = (balance ≡ balance_of db user +ℤ amount) × IsPaidView user balance db db₁

  pay_tail : ℤ → Tx ℤ
  pay_tail current = write_balance env user (add64 current amount) >> pure (add64 current amount)

  pub pay_balance-Paid :
      (db : Db)
      → IsExact env
      → abs (balance_of db user) ≤ 2 ^ 53
      → abs amount ≤ 2 ^ 53
      → Ensures (Paid db) (pay_balance env user amount db)
  unfolding pay_balance pay_tail
  pay_balance-Paid db x h k =
      Ensures-bind (Paid db) (ReadsBalance user db) (read_or_create_balance env user) pay_tail db
        (read_or_create_balance_lem env user db x h)
        (λ current db₁ r.
          Ensures-exec (Paid db) env update_balance user
            (λ d. record d { user_credits = insert user (add64 current amount) d.user_credits })
            (λ u. pure (add64 current amount)) db₁
            (
              add64_balance user amount current db h k r.0,
              record { view = db₁; same = r.1; written = refl },
            ))

  -- What a step of a payment ensures: a posted row, under an identifier that was not there.
  abbrev pub PaidOnce : Db → CreditTransaction → Db → Type 0
  PaidOnce db row db' =
      Posted user amount db row db'
      × (has_transaction_id id db.credit_transactions ≡ false)
      × (row.transaction_id ≡ some id)
      × (db'.invoices ≡ db.invoices)

  abbrev pub StepEnsures : Db → Result CreditTransaction × Db → Type 0
  StepEnsures db (ok row, db') = PaidOnce db row db'
  StepEnsures db (err e, db') =
      (db'.credit_transactions ≡ db.credit_transactions) × (db'.invoices ≡ db.invoices)

  of_insert-PaidOnce :
      (db db₁ : Db) (row : CreditTransaction) (r : Result (Unit {0} × Db))
      → Ensures (λ u db'. PaidOnce db row db') r
      → (db₁.credit_transactions ≡ db.credit_transactions) × (db₁.invoices ≡ db.invoices)
      → StepEnsures db (of_insert row db₁ r)
  of_insert-PaidOnce db db₁ row (ok (u, db')) h e = h
  of_insert-PaidOnce db db₁ row (err x) h e = e

  append_unique-PaidOnce :
      (db view : Db) (row : CreditTransaction)
      → SameBooks db view
      → row.username ≡ user
      → row.amount_usd_microcents ≡ amount
      → row.transaction_id ≡ some id
      → row.balance_after_usd_microcents ≡ balance_of db user +ℤ amount
      → Ensures
          (λ u db'. PaidOnce db row db')
          (append_unique env id row (record view {
            user_credits = insert user row.balance_after_usd_microcents view.user_credits;
          }))
  unfolding append_unique append_row
  append_unique-PaidOnce db view row s u a t b =
      Ensures-unless (λ u db'. PaidOnce db row db') (has_transaction_id id view.credit_transactions)
        (db_error insert_transaction)
        (append_row env row (record view {
          user_credits = insert user row.balance_after_usd_microcents view.user_credits;
        }))
        (λ fresh.
          Ensures-if (λ u db'. PaidOnce db row db') (env.fails insert_transaction row.username)
            (db_error insert_transaction)
            (ok (
              tt,
              record view {
                user_credits = insert user row.balance_after_usd_microcents view.user_credits;
                credit_transactions = row ∷ view.credit_transactions;
              },
            ))
            (
              write_append-Posted user amount row db view s u a b,
              rw s.rows at fresh,
              t,
              s.invoices,
            ))

  insert_view-PaidOnce :
      (db view : Db) (balance : ℤ)
      → SameBooks db view
      → balance ≡ balance_of db user +ℤ amount
      → StepEnsures db (
          insert_payment env id
            (payment_row user amount balance id payment_type)
            (record view { user_credits = insert user balance view.user_credits }))
  unfolding payment_row
  insert_view-PaidOnce db view balance s b =
      let row = payment_row user amount balance id payment_type in
      of_insert-PaidOnce db (record view { user_credits = insert user balance view.user_credits })
        row
        (append_unique env id row
          (record view { user_credits = insert user balance view.user_credits }))
        (append_unique-PaidOnce db view row s refl refl refl b) (s.rows, s.invoices)

  insert-PaidOnce :
      (db db₁ : Db) (balance : ℤ)
      → Paid db balance db₁
      → StepEnsures db (insert_payment env id (payment_row user amount balance id payment_type) db₁)
  insert-PaidOnce db db₁ balance p =
      rw p.1.written (insert_view-PaidOnce db p.1.view balance p.1.same p.0)

  after_balance-PaidOnce :
      (db : Db) (r : Result (ℤ × Db))
      → Ensures (Paid db) r
      → StepEnsures db (after_balance env user amount id payment_type db r)
  after_balance-PaidOnce db (err e) h = (refl, refl)
  after_balance-PaidOnce db (ok (balance, db₁)) h = insert-PaidOnce db db₁ balance h

  step_if :
      (db : Db) (c : Bool) (e : BillingError) (r : Result CreditTransaction × Db)
      → StepEnsures db r
      → StepEnsures db (if c then (err e, db) else r)
  step_if db true e r h = (refl, refl)
  step_if db false e r h = h

  pub process_payment_in_tx-PaidOnce :
      (db : Db)
      → IsExact env
      → abs (balance_of db user) ≤ 2 ^ 53
      → abs amount ≤ 2 ^ 53
      → StepEnsures db (process_payment_in_tx env user amount id payment_type db)
  unfolding process_payment_in_tx
  process_payment_in_tx-PaidOnce db x h k =
      step_if db (str_eq user "") empty_username
        (if not (ltb_ℤ (pos 0) amount)
          then (err not_positive, db)
          else if str_eq id ""
          then (err empty_transaction_id, db)
          else after_balance env user amount id payment_type db (pay_balance env user amount db))
        (step_if db (not (ltb_ℤ (pos 0) amount)) not_positive
          (if str_eq id ""
            then (err empty_transaction_id, db)
            else after_balance env user amount id payment_type db (pay_balance env user amount db))
          (step_if db (str_eq id "") empty_transaction_id
            (after_balance env user amount id payment_type db (pay_balance env user amount db))
            (after_balance-PaidOnce db (pay_balance env user amount db)
              (pay_balance-Paid db x h k))))

  or_rollback-PaidOnce :
      (db : Db) (r : Result CreditTransaction × Db)
      → StepEnsures db r
      → Ensures (PaidOnce db) (or_rollback (λ d. r) db)
  or_rollback-PaidOnce db (ok row, db') h = h
  or_rollback-PaidOnce db (err e, db') h = tt

  -- A payment that succeeds adds its amount to the user's balance and one row to the ledger, under
  -- a provider transaction that had no row before; one that fails, by a refused argument, by a
  -- transaction that has its row already, or at any statement, changes nothing. For balances and
  -- amounts up to 2^53 microcents.
  pub process_payment-Atomic :
      (db : Db)
      → IsExact env
      → abs (balance_of db user) ≤ 2 ^ 53
      → abs amount ≤ 2 ^ 53
      → Atomic db (PaidOnce db) (process_payment env user amount id payment_type db)
  unfolding process_payment
  process_payment-Atomic db x h k =
      run_tx-Atomic (PaidOnce db) env user
        (or_rollback (process_payment_in_tx env user amount id payment_type)) db
        (or_rollback-PaidOnce db (process_payment_in_tx env user amount id payment_type db)
          (process_payment_in_tx-PaidOnce db x h k))

  known_result :
      (db : Db) (r : Db × Result CreditTransaction)
      → has_transaction_id id db.credit_transactions ≡ true
      → Atomic db (PaidOnce db) r
      → r.0 ≡ db
  known_result db (db', ok row) taken h = cc (h.1)
  known_result db (db', err e) taken h = h

  -- Once the ledger has a row of a provider transaction, a payment under it changes nothing. For
  -- balances and amounts up to 2^53 microcents.
  pub process_payment_known :
      (db : Db)
      → IsExact env
      → abs (balance_of db user) ≤ 2 ^ 53
      → abs amount ≤ 2 ^ 53
      → has_transaction_id id db.credit_transactions ≡ true
      → (process_payment env user amount id payment_type db).0 ≡ db
  process_payment_known db x h k taken =
      known_result db (process_payment env user amount id payment_type db) taken
        (process_payment-Atomic db x h k)
