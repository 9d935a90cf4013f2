-- ===== src/Billing/Payments.antt =====
-- billing/payments.go and billing/reconcile.go, with the statements of models/payments.go that
-- they run.
use arkfile.Base.{
  ℕ, suc, Bool, true, false, not, ◌&&◌, ◌||◌, Option, none, some, List, [], ◌∷◌, String, str_eq,
  if◌then◌else◌,
}
use Prim.Native.String.{◌++◌ as text_append}
use arkfile.Base.Int.{ℤ, pos, add64, ltb_ℤ}
use arkfile.Base.Table.{Table, lookup, insert}
use arkfile.Billing.State.{
  CreditTransaction, InvoiceStatus, pending, paid, PaymentInvoice, payment, Db, Env, Result, ok,
  err, BillingError, empty_username, not_positive, empty_transaction_id, missing_provider_id,
  nil_invoice, not_settleable, no_longer_pending, db_error, insert_transaction, count_credit,
  update_invoice, list_invoices, Tx, ◌>>=◌, ◌>>◌, pure, require, exec, query, run_tx,
}
use arkfile.Billing.Balance.{read_or_create_balance, write_balance, append_row}

unfoldable pub payment_row : String → ℤ → ℤ → String → String → CreditTransaction
payment_row username amount balance provider_tx_id payment_type = record {
  transaction_id = some provider_tx_id;
  username = username;
  amount_usd_microcents = amount;
  balance_after_usd_microcents = balance;
  transaction_type = payment;
  reason = text_append "Payment top-up via " payment_type;
  admin_username = none;
  metadata = none;
}

abbrev pub id_matches : String → Option String → Bool
id_matches id none = false
id_matches id (some other) = str_eq other id

-- `SELECT COUNT(1) ... WHERE transaction_id = ?` is positive.
unfoldable pub has_transaction_id : String → List CreditTransaction → Bool
has_transaction_id id [] = false
has_transaction_id id (row ∷ rows) = id_matches id row.transaction_id || has_transaction_id id rows

-- The insert, under the UNIQUE constraint on `transaction_id`.
unfoldable pub append_unique : Env → String → CreditTransaction → Tx (Unit {0})
unfolding append_row
append_unique env id row db =
    if has_transaction_id id db.credit_transactions
    then err (db_error insert_transaction)
    else append_row env row db

-- A transaction's step whose error the caller handles: what was written before the error stays in
-- the transaction's view, so the view comes back with the error.
abbrev pub Step : Type 0 → Type 0
Step A = Db → Result A × Db

-- The statements of `processPaymentInTx` before the insert.
unfoldable pub pay_balance : Env → String → ℤ → Tx ℤ
unfolding read_or_create_balance write_balance
pay_balance env username amount = do
  current ← read_or_create_balance env username
  write_balance env username (add64 current amount)
  pure (add64 current amount)

abbrev pub of_insert :
    CreditTransaction → Db → Result (Unit {0} × Db) → Result CreditTransaction × Db
of_insert row db (ok (u, db')) = (ok row, db')
of_insert row db (err e) = (err e, db)

abbrev pub insert_payment : Env → String → CreditTransaction → Db → Result CreditTransaction × Db
insert_payment env id row db = of_insert row db (append_unique env id row db)

abbrev pub after_balance :
    Env → String → ℤ → String → String → Db → Result (ℤ × Db) → Result CreditTransaction × Db
after_balance env username amount id payment_type db (err e) = (err e, db)
after_balance env username amount id payment_type db (ok (balance, db')) =
    insert_payment env id (payment_row username amount balance id payment_type) db'

-- An error before the insert is returned by every caller, which rolls back: only the view at the
-- insert matters.
unfoldable pub process_payment_in_tx : Env → String → ℤ → String → String → Step CreditTransaction
unfolding pay_balance append_unique
process_payment_in_tx env username amount provider_tx_id payment_type db =
    if str_eq username ""
    then (err empty_username, db)
    else if not (ltb_ℤ (pos 0) amount)
    then (err not_positive, db)
    else if str_eq provider_tx_id ""
    then (err empty_transaction_id, db)
    else after_balance env username amount provider_tx_id payment_type db
        (pay_balance env username amount db)

-- A step whose error ends the transaction.
abbrev pub or_rollback : {A : Type 0} → Step A → Tx A
or_rollback step db = let (r, db') = step db in elim r [ ok a ↦ ok (a, db') | err e ↦ err e ]

unfoldable pub process_payment :
    Env → String → ℤ → String → String → Db → Db × Result CreditTransaction
unfolding process_payment_in_tx
process_payment env username amount provider_tx_id payment_type db =
    run_tx env username
      (or_rollback (process_payment_in_tx env username amount provider_tx_id payment_type)) db

-- `CreditTransactionExistsForProviderID`
unfoldable pub credit_exists : Env → String → Db → Result Bool
credit_exists env id db =
    if str_eq id ""
    then ok false
    else if env.fails count_credit id
    then err (db_error count_credit)
    else ok (has_transaction_id id db.credit_transactions)

-- An `UPDATE` of one row, which changes nothing if there is none.
abbrev pub set_invoice_status :
    String → InvoiceStatus → Option PaymentInvoice → Table PaymentInvoice → Table PaymentInvoice
set_invoice_status id status none m = m
set_invoice_status id status (some invoice) m = insert id (record invoice { status = status }) m

-- `UpdatePaymentInvoiceStatus`
unfoldable pub update_payment_invoice_status : Env → String → InvoiceStatus → Tx (Unit {0})
update_payment_invoice_status env id status =
    exec env update_invoice id
      (λ d. record d { invoices = set_invoice_status id status (lookup id d.invoices) d.invoices })

abbrev pub is_pending : Option PaymentInvoice → Bool
is_pending none = false
is_pending (some invoice) = elim invoice.status [ pending ↦ true | _ ↦ false ]

-- `UPDATE ... SET status = 'paid' WHERE invoice_id = ? AND status = 'pending'`, and the check of
-- the number of rows.
unfoldable pub mark_paid_if_pending : Env → String → Tx (Unit {0})
unfolding update_payment_invoice_status
mark_paid_if_pending env id = do
  was_pending ← query env update_invoice id (λ d. is_pending (lookup id d.invoices))
  require was_pending no_longer_pending
  update_payment_invoice_status env id paid

abbrev pub is_paid : InvoiceStatus → Bool
is_paid paid = true
is_paid _ = false

-- `isDuplicateTransactionIDError`: every failure of the insert carries that text.
unfoldable pub is_duplicate_transaction_id_error : BillingError → Bool
is_duplicate_transaction_id_error (db_error insert_transaction) = true
is_duplicate_transaction_id_error _ = false

-- What the transaction of `SettlePaymentInvoice` makes of the payment's outcome: a failed insert
-- is passed over if the credit row is there.
abbrev pub existing_credit :
    BillingError → Result Bool → Db → Result (Option CreditTransaction × Db)
existing_credit e (err e') db = err e'
existing_credit e (ok false) db = err e
existing_credit e (ok true) db = ok (none, db)

abbrev pub credit_or_existing :
    Env → String → Result CreditTransaction → Db → Result (Option CreditTransaction × Db)
credit_or_existing env id (ok row) db = ok (some row, db)
credit_or_existing env id (err e) db =
    if is_duplicate_transaction_id_error e
    then existing_credit e (credit_exists env id db) db
    else err e

unfoldable pub settle_body : Env → PaymentInvoice → String → Tx (Option CreditTransaction)
unfolding process_payment_in_tx credit_exists is_duplicate_transaction_id_error mark_paid_if_pending
settle_body env invoice payment_type = do
  credit ← λ db.
      let (r, db') =
        process_payment_in_tx env invoice.username invoice.amount_usd_microcents
          invoice.provider_invoice_id payment_type db in
      credit_or_existing env invoice.provider_invoice_id r db'
  mark_paid_if_pending env invoice.invoice_id
  pure credit

abbrev pub some_result : Db × Result CreditTransaction → Db × Result (Option CreditTransaction)
some_result (db, ok row) = (db, ok (some row))
some_result (db, err e) = (db, err e)

-- The invoice has no credit row yet.
unfoldable pub settle_uncredited :
    Env → PaymentInvoice → String → Db → Db × Result (Option CreditTransaction)
unfolding process_payment settle_body
settle_uncredited env invoice payment_type db = elim invoice.status [
  | paid ↦ some_result (
      process_payment env invoice.username invoice.amount_usd_microcents invoice.provider_invoice_id
        payment_type db)
  | pending ↦ run_tx env invoice.username (settle_body env invoice payment_type) db
  | _ ↦ (db, err not_settleable)
]

abbrev pub done : Result (Unit {0} × Db) → Db → Db × Result (Option CreditTransaction)
done (err e) db = (db, err e)
done (ok (u, db')) db = (db', ok none)

-- The invoice has its credit row: it is only marked paid.
unfoldable pub settle_credited : Env → PaymentInvoice → Db → Db × Result (Option CreditTransaction)
unfolding update_payment_invoice_status
settle_credited env invoice db =
    if is_paid invoice.status
    then (db, ok none)
    else done (update_payment_invoice_status env invoice.invoice_id paid db) db

abbrev pub settle_by :
    Env
    → PaymentInvoice
    → String
    → (Db → Db)
    → Db
    → Result Bool
    → Db × Result (Option CreditTransaction)
settle_by env invoice payment_type interfere db (err e) = (db, err e)
settle_by env invoice payment_type interfere db (ok true) =
    settle_credited env invoice (interfere db)
settle_by env invoice payment_type interfere db (ok false) =
    settle_uncredited env invoice payment_type (interfere db)

-- `invoice` is what the caller read before the call; `interfere` is what other requests do to the
-- tables between the check for an existing credit and what follows it.
unfoldable pub settle_payment_invoice :
    Env → Option PaymentInvoice → String → (Db → Db) → Db → Db × Result (Option CreditTransaction)
unfolding credit_exists settle_credited settle_uncredited
settle_payment_invoice env none payment_type interfere db = (db, err nil_invoice)
settle_payment_invoice env (some invoice) payment_type interfere db =
    if str_eq invoice.provider_invoice_id ""
    then (db, err missing_provider_id)
    else settle_by env invoice payment_type interfere db
        (credit_exists env invoice.provider_invoice_id db)

-- `ListPaidInvoicesWithoutCredit`
abbrev pub is_orphan : List CreditTransaction → PaymentInvoice → Bool
is_orphan rows invoice =
    is_paid invoice.status
    && not (str_eq invoice.provider_invoice_id "")
    && not (has_transaction_id invoice.provider_invoice_id rows)

unfoldable pub orphans : List CreditTransaction → Table PaymentInvoice → List PaymentInvoice
orphans rows [] = []
orphans rows ((id, invoice) ∷ m) =
    if is_orphan rows invoice then invoice ∷ orphans rows m else orphans rows m

-- One round of the loop of `ReconcilePaidInvoices`: go on with the count, or return the error.
abbrev pub tally : Result CreditTransaction → ℕ → Result ℕ
tally (ok row) repaired = ok (suc repaired)
tally (err e) repaired = if is_duplicate_transaction_id_error e then ok repaired else err e

unfoldable pub reconcile_loop :
    Env → String → List PaymentInvoice → ℕ → Db → Db × ℕ × Option BillingError
unfolding process_payment
reconcile_loop env payment_type [] repaired db = (db, repaired, none)
reconcile_loop env payment_type (invoice ∷ rest) repaired db =
    let (db', r) =
      process_payment env invoice.username invoice.amount_usd_microcents invoice.provider_invoice_id
        payment_type db in
    elim (tally r repaired) [
      | ok repaired' ↦ reconcile_loop env payment_type rest repaired' db'
      | err e ↦ (db', repaired, some e)
    ]

unfoldable pub reconcile_paid_invoices : Env → String → Db → Db × ℕ × Option BillingError
unfolding orphans reconcile_loop
reconcile_paid_invoices env payment_type db =
    if env.fails list_invoices ""
    then (db, 0, some (db_error list_invoices))
    else reconcile_loop env payment_type (orphans db.credit_transactions db.invoices) 0 db
