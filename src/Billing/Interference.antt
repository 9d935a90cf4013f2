-- ===== src/Billing/Interference.antt =====
-- The books after `SettlePaymentInvoice`, whatever other requests do to the tables between its check
-- for a ledger row and what follows it.
use arkfile.Base.{
  ◌≤◌, ◌^◌, ◌≡◌, refl, sym, ◌∙◌, Bool, true, false, Option, none, some, String, str_eq, arith,
  if◌then◌else◌, inl, inr,
}
use arkfile.Base.Int.{ℤ, pos, abs, ◌+ℤ◌, +ℤ_zero}
use arkfile.Billing.State.{
  CreditTransaction, PaymentInvoice, InvoiceStatus, pending, paid, expired, failed, Db, Env,
  IsExact, BillingError, Result, ok, err, balance_of, missing_provider_id,
}
use arkfile.Billing.Triples.{Atomic}
use arkfile.Billing.Ledger.{Posts-IsBalanced, IsBalanced, total}
use arkfile.Billing.PaymentLaws.{PaidOnce, process_payment-Atomic}
use arkfile.Billing.Payments.{
  has_transaction_id, process_payment, credit_exists, settle_uncredited, settle_credited, settle_by,
  settle_payment_invoice, some_result,
}
use arkfile.Billing.SettleLaws.{Settled, AddsUnposted, settle_pending-Atomic}

-- The balance of one user is an amount above the user's ledger rows, and every other user's is the
-- sum of theirs.
abbrev pub IsOffBy : String → ℤ → Db → Type 0
IsOffBy user amount db =
    (v : String)
    → balance_of db v ≡ total v db.credit_transactions +ℤ (if str_eq user v then amount else pos 0)

-- The amount of a settlement that succeeds with no row, where none was known at first.
abbrev pub excess : Bool → ℤ → Result (Option CreditTransaction) → ℤ
excess known amount (err e) = pos 0
excess known amount (ok (some row)) = pos 0
excess known amount (ok none) = if known then pos 0 else amount

zero_either : (c : Bool) (a : ℤ) → a +ℤ (if c then pos 0 else pos 0) ≡ a
zero_either true a = +ℤ_zero a
zero_either false a = +ℤ_zero a

IsBalanced-IsOffBy : (user : String) (db : Db) → IsBalanced db → IsOffBy user (pos 0) db
IsBalanced-IsOffBy user db b v =
    b v ∙ sym (zero_either (str_eq user v) (total v db.credit_transactions))

-- A result that comes with a row, an error, or a known row.
balanced_excess :
    (user : String) (amount : ℤ) (db : Db) (r : Result (Option CreditTransaction)) (known : Bool)
    → excess known amount r ≡ pos 0
    → IsBalanced db
    → IsOffBy user (excess known amount r) db
balanced_excess user amount db r known e b = rw e (IsBalanced-IsOffBy user db b)

excess_known : (amount : ℤ) (r : Result (Option CreditTransaction)) → excess true amount r ≡ pos 0
excess_known amount (err e) = refl
excess_known amount (ok (some row)) = refl
excess_known amount (ok none) = refl

excess_some :
    (known : Bool) (amount : ℤ) (r : Db × Result CreditTransaction)
    → excess known amount (some_result r).1 ≡ pos 0
excess_some known amount (db, ok row) = refl
excess_some known amount (db, err e) = refl

module _ (env : Env) (invoice : PaymentInvoice) (payment_type : String) where
  abbrev IsSettledBooks : Bool → Db × Result (Option CreditTransaction) → Type 0
  IsSettledBooks known r =
      IsOffBy invoice.username (excess known invoice.amount_usd_microcents r.1) r.0

  unposted :
      (db db' : Db)
      → AddsUnposted env invoice payment_type db none db'
      → IsBalanced db
      → IsOffBy invoice.username invoice.amount_usd_microcents db'
  unposted db db' (e, known, rows, adds) b v =
      rw (adds v, b v, rows) (either (str_eq invoice.username v) v)
    where
      either :
          (c : Bool) (v : String)
          → (if c
              then total v db.credit_transactions +ℤ invoice.amount_usd_microcents
              else total v db.credit_transactions)
            ≡ total v db.credit_transactions +ℤ (if c then invoice.amount_usd_microcents else pos 0)
      either true v = refl
      either false v = sym (+ℤ_zero (total v db.credit_transactions))

  pending_books :
      (db : Db) (r : Db × Result (Option CreditTransaction))
      → Atomic db (Settled env invoice payment_type db) r
      → IsBalanced db
      → IsSettledBooks false r
  pending_books db (db', err e) h b = rw h (IsBalanced-IsOffBy invoice.username db b)
  pending_books db (db', ok credit) (marks, inl (row, e, p, t, fresh)) b = rw e (
      IsBalanced-IsOffBy invoice.username db'
        (Posts-IsBalanced invoice.username invoice.amount_usd_microcents db db' p.0 b))
  pending_books db (db', ok credit) (marks, inr (e, known, rows, adds)) b =
      rw e (unposted db db' (refl, known, rows, adds) b)

  paid-IsBalanced :
      (db : Db) (r : Db × Result CreditTransaction)
      → Atomic db
          (PaidOnce env invoice.username invoice.amount_usd_microcents invoice.provider_invoice_id
            payment_type db)
          r
      → IsBalanced db
      → IsBalanced (some_result r).0
  paid-IsBalanced db (db', ok row) h b =
      Posts-IsBalanced invoice.username invoice.amount_usd_microcents db db' h.0.0 b
  paid-IsBalanced db (db', err e) h b = rw h b

  uncredited_books :
      (db : Db) (s : InvoiceStatus)
      → invoice.status ≡ s
      → IsExact env
      → abs (balance_of db invoice.username) ≤ 2 ^ 53
      → abs invoice.amount_usd_microcents ≤ 2 ^ 53
      → IsBalanced db
      → IsSettledBooks false (settle_uncredited env invoice payment_type db)
  unfolding settle_uncredited process_payment
  uncredited_books db pending s x h k b =
      pending_books db (settle_uncredited env invoice payment_type db)
        (settle_pending-Atomic env invoice payment_type db x h k s) b
  uncredited_books db paid s x h k b =
      let r =
        process_payment env invoice.username invoice.amount_usd_microcents
          invoice.provider_invoice_id payment_type db in
      rw (s, settle_uncredited)
        (balanced_excess invoice.username invoice.amount_usd_microcents (some_result r).0
          (some_result r).1 false (excess_some false invoice.amount_usd_microcents r)
          (paid-IsBalanced db r
            (process_payment-Atomic env invoice.username invoice.amount_usd_microcents
              invoice.provider_invoice_id payment_type db x h k)
            b))
  uncredited_books db expired s x h k b =
      rw (s, settle_uncredited) (IsBalanced-IsOffBy invoice.username db b)
  uncredited_books db failed s x h k b =
      rw (s, settle_uncredited) (IsBalanced-IsOffBy invoice.username db b)

  -- Whatever branch is taken, marking a credited invoice moves no money.
  settle_credited-SameMoney :
      (db : Db)
      → ((settle_credited env invoice db).0.user_credits ≡ db.user_credits)
        × ((settle_credited env invoice db).0.credit_transactions ≡ db.credit_transactions)
  unfolding settle_credited
  settle_credited-SameMoney db = ground arith

  settle_credited-IsBalanced :
      (db : Db) → IsBalanced db → IsBalanced (settle_credited env invoice db).0
  unfolding balance_of
  settle_credited-IsBalanced db b v =
      rw ((settle_credited-SameMoney db).0, (settle_credited-SameMoney db).1) (b v)

  -- What the first check says of the ledger.
  credit_exists_is :
      (db : Db) (known : Bool)
      → str_eq invoice.provider_invoice_id "" ≡ false
      → credit_exists env invoice.provider_invoice_id db ≡ ok known
      → known ≡ has_transaction_id invoice.provider_invoice_id db.credit_transactions
  unfolding credit_exists
  credit_exists_is db known named e = ground arith

  settle_by_books :
      (interfere : Db → Db) (db : Db) (r : Result Bool)
      → ((known : Bool)
          → r ≡ ok known
          → known ≡ has_transaction_id invoice.provider_invoice_id db.credit_transactions)
      → IsExact env
      → abs (balance_of (interfere db) invoice.username) ≤ 2 ^ 53
      → abs invoice.amount_usd_microcents ≤ 2 ^ 53
      → IsBalanced db
      → IsBalanced (interfere db)
      → IsSettledBooks
          (has_transaction_id invoice.provider_invoice_id db.credit_transactions)
          (settle_by env invoice payment_type interfere db r)
  settle_by_books interfere db (err e) is x h k b c = IsBalanced-IsOffBy invoice.username db b
  settle_by_books interfere db (ok true) is x h k b c = rw (← is true refl) (
      balanced_excess invoice.username invoice.amount_usd_microcents
        (settle_credited env invoice (interfere db)).0
        (settle_credited env invoice (interfere db)).1 true
        (excess_known invoice.amount_usd_microcents (settle_credited env invoice (interfere db)).1)
        (settle_credited-IsBalanced (interfere db) c))
  settle_by_books interfere db (ok false) is x h k b c =
      rw (← is false refl) (uncredited_books (interfere db) invoice.status refl x h k c)

  unless_unnamed :
      (unnamed known : Bool) (db : Db) (e : BillingError)
      (r : Db × Result (Option CreditTransaction))
      → IsBalanced db
      → (unnamed ≡ false → IsSettledBooks known r)
      → IsSettledBooks known (if unnamed then (db, err e) else r)
  unless_unnamed true known db e r b h = IsBalanced-IsOffBy invoice.username db b
  unless_unnamed false known db e r b h = h refl

  -- Settling an invoice, on every branch, where the tables are balanced at first and after whatever
  -- other requests do to them behind the first check. The books stay balanced, save for a call that
  -- succeeds with no row though the first check found none: after it the user's balance is the
  -- invoice's amount above the user's ledger rows, and every other user's is the sum of theirs. For
  -- balances and amounts up to 2^53 microcents.
  pub settle_payment_invoice-IsOffBy :
      (interfere : Db → Db) (db : Db)
      → IsExact env
      → abs (balance_of (interfere db) invoice.username) ≤ 2 ^ 53
      → abs invoice.amount_usd_microcents ≤ 2 ^ 53
      → IsBalanced db
      → IsBalanced (interfere db)
      → IsOffBy invoice.username
          (excess
            (has_transaction_id invoice.provider_invoice_id db.credit_transactions)
            invoice.amount_usd_microcents
            (settle_payment_invoice env (some invoice) payment_type interfere db).1)
          (settle_payment_invoice env (some invoice) payment_type interfere db).0
  unfolding settle_payment_invoice
  settle_payment_invoice-IsOffBy interfere db x h k b c =
      unless_unnamed (str_eq invoice.provider_invoice_id "")
        (has_transaction_id invoice.provider_invoice_id db.credit_transactions) db
        missing_provider_id
        (settle_by env invoice payment_type interfere db
          (credit_exists env invoice.provider_invoice_id db))
        b
        (λ named.
          settle_by_books interfere db (credit_exists env invoice.provider_invoice_id db)
            (λ known e. credit_exists_is db known named e) x h k b c)
