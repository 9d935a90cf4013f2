-- ===== src/Billing/SettleLaws.antt =====
-- What `SettlePaymentInvoice` leaves of an invoice that was read as pending and had no ledger row at
-- its first check.
use arkfile.Base.{
  ◌≤◌, ◌^◌, ◌≡◌, refl, Bool, true, false, Option, none, some, String, str_eq, arith, eq_iff,
  if◌then◌else◌, inl, inr, ◌⊎◌,
}
use arkfile.Base.Int.{abs}
use arkfile.Base.Table.{lookup, lookup-insert}
use arkfile.Billing.State.{
  CreditTransaction, PaymentInvoice, pending, paid, Db, Env, IsExact, BillingError, ◌>>◌, pure,
  Result, ok, err, balance_of, update_invoice, db_error, require, no_longer_pending,
}
use arkfile.Billing.Triples.{
  Ensures, Atomic, Ensures-query, Ensures-bind, Ensures-require, Ensures-if, run_tx-Atomic,
}
use arkfile.Billing.Posting.{Posted}
use arkfile.Billing.PaymentLaws.{StepEnsures, process_payment_in_tx-PaidOnce}
use arkfile.Billing.Duplicates.{Adds, Leaves, process_payment_in_tx-Leaves}
use arkfile.Billing.Payments.{
  has_transaction_id, process_payment_in_tx, credit_exists, set_invoice_status,
  update_payment_invoice_status, is_pending, mark_paid_if_pending,
  is_duplicate_transaction_id_error, existing_credit, credit_or_existing, settle_body,
  settle_uncredited,
}

abbrev pub as_paid : Option PaymentInvoice → Option PaymentInvoice
as_paid none = none
as_paid (some invoice) = some (record invoice { status = paid })

-- The invoice of an id was pending and is paid, and no other has changed.
abbrev pub MarksPaid : String → Db → Db → Type 0
MarksPaid id db db' =
    (is_pending (lookup id db.invoices) ≡ true)
    × ((i : String)
        → lookup i db'.invoices
          ≡ (if str_eq id i then as_paid (lookup i db.invoices) else lookup i db.invoices))

set_invoice_status_lem :
    (id i : String) (db : Db) (found : Option PaymentInvoice)
    → lookup id db.invoices ≡ found
    → lookup i (set_invoice_status id paid found db.invoices)
      ≡ (if str_eq id i then as_paid (lookup i db.invoices) else lookup i db.invoices)
set_invoice_status_lem id i db none e = ground (arith, eq_iff id i)
set_invoice_status_lem id i db (some invoice) e =
    ground (arith, eq_iff id i, lookup-insert id i (record invoice { status = paid }) db.invoices)

module _ (env : Env) (invoice : PaymentInvoice) (payment_type : String) where
  -- A new row under the provider's invoice, which had none.
  abbrev pub PostsNew : Db → Option CreditTransaction → Db → Type 0
  PostsNew db credit db' =
      (row : CreditTransaction) × (credit ≡ some row)
      × Posted invoice.username invoice.amount_usd_microcents db row db'
      × (row.transaction_id ≡ some invoice.provider_invoice_id)
      × (has_transaction_id invoice.provider_invoice_id db.credit_transactions ≡ false)

  -- A row was there: no new one, but the amount is added to the balance all the same.
  abbrev pub AddsUnposted : Db → Option CreditTransaction → Db → Type 0
  AddsUnposted db credit db' =
      (credit ≡ none)
      × (has_transaction_id invoice.provider_invoice_id db.credit_transactions ≡ true)
      × (db'.credit_transactions ≡ db.credit_transactions)
      × Adds invoice.username invoice.amount_usd_microcents db db'

  -- What a settled invoice leaves.
  abbrev pub Settled : Db → Option CreditTransaction → Db → Type 0
  Settled db credit db' =
      MarksPaid invoice.invoice_id db db' × (PostsNew db credit db' ⊎ AddsUnposted db credit db')

  -- The credit that the transaction has in hand: a new row, or one that was there.
  abbrev Credited : Db → Option CreditTransaction → Db → Type 0
  Credited db credit db' =
      (db'.invoices ≡ db.invoices) × (PostsNew db credit db' ⊎ AddsUnposted db credit db')

  existing-Credited :
      (db db' : Db) (e : BillingError) (r : Result Bool)
      → (r ≡ ok true
          → has_transaction_id invoice.provider_invoice_id db'.credit_transactions ≡ true)
      → (db'.credit_transactions ≡ db.credit_transactions) × (db'.invoices ≡ db.invoices)
      → Adds invoice.username invoice.amount_usd_microcents db db'
      → Ensures (Credited db) (existing_credit e r db')
  existing-Credited db db' e (err e') known s a = tt
  existing-Credited db db' e (ok false) known s a = tt
  existing-Credited db db' e (ok true) known s a = (s.1, inr (refl, rw s.0 at (known refl), s.0, a))

  credit_exists-true :
      (db : Db)
      → credit_exists env invoice.provider_invoice_id db ≡ ok true
      → has_transaction_id invoice.provider_invoice_id db.credit_transactions ≡ true
  unfolding credit_exists
  credit_exists-true db e = ground arith

  duplicate_or_error :
      (db db' : Db) (e : BillingError) (duplicate : Bool)
      → (db'.credit_transactions ≡ db.credit_transactions) × (db'.invoices ≡ db.invoices)
      → (duplicate ≡ true → Adds invoice.username invoice.amount_usd_microcents db db')
      → Ensures (Credited db) (
          if duplicate
          then existing_credit e (credit_exists env invoice.provider_invoice_id db') db'
          else err e)
  duplicate_or_error db db' e true s a =
      existing-Credited db db' e (credit_exists env invoice.provider_invoice_id db')
        (credit_exists-true db') s (a refl)
  duplicate_or_error db db' e false s a = tt

  credit_or_existing-Credited :
      (db : Db) (r : Result CreditTransaction × Db)
      → StepEnsures env invoice.username invoice.amount_usd_microcents invoice.provider_invoice_id
          payment_type db r
      → Leaves env invoice.username invoice.amount_usd_microcents invoice.provider_invoice_id
          payment_type db r
      → Ensures (Credited db) (credit_or_existing env invoice.provider_invoice_id r.0 r.1)
  credit_or_existing-Credited db (ok row, db') h a = (h.3, inl (row, refl, h.0, h.2, h.1))
  credit_or_existing-Credited db (err e, db') h a =
      duplicate_or_error db db' e (is_duplicate_transaction_id_error e) h a

  -- The tables after the invoice is marked.
  abbrev marked : Db → Db
  marked db = record db {
    invoices =
        set_invoice_status invoice.invoice_id paid (lookup invoice.invoice_id db.invoices)
          db.invoices;
  }

  Marked : Db → Unit {0} → Db → Type 0
  Marked db u db' = (is_pending (lookup invoice.invoice_id db.invoices) ≡ true) × (db' ≡ marked db)

  mark-Marked : (db : Db) → Ensures (Marked db) (mark_paid_if_pending env invoice.invoice_id db)
  unfolding mark_paid_if_pending Marked
  mark-Marked db =
      Ensures-query (Marked db) env update_invoice invoice.invoice_id
        (λ d. is_pending (lookup invoice.invoice_id d.invoices))
        (λ was_pending.
          require was_pending no_longer_pending
          >> update_payment_invoice_status env invoice.invoice_id paid)
        db
        (Ensures-require (Marked db) (is_pending (lookup invoice.invoice_id db.invoices))
          no_longer_pending (λ u. update_payment_invoice_status env invoice.invoice_id paid) db
          (λ p.
            Ensures-if (Marked db) (env.fails update_invoice invoice.invoice_id)
              (db_error update_invoice) (ok (tt, marked db)) (p, refl)))

  -- Marking an invoice moves no money.
  money-marked :
      (db db₁ : Db) (credit : Option CreditTransaction)
      → PostsNew db credit db₁ ⊎ AddsUnposted db credit db₁
      → PostsNew db credit (marked db₁) ⊎ AddsUnposted db credit (marked db₁)
  unfolding balance_of
  money-marked db db₁ credit (inl (row, e, p, t, fresh)) = inl (
    row,
    e,
    (record { balances = p.0.balances; totals = p.0.totals }, p.1, p.2, p.3, p.4, p.5),
    t,
    fresh,
  )
  money-marked db db₁ credit (inr (e, known, rows, adds)) = inr (e, known, rows, adds)

  Settled-marked :
      (db db₁ : Db) (credit : Option CreditTransaction)
      → Credited db credit db₁
      → is_pending (lookup invoice.invoice_id db₁.invoices) ≡ true
      → Settled db credit (marked db₁)
  Settled-marked db db₁ credit (same, money) p = (
    (
      rw same at p,
      λ i. rw (← same) (
          set_invoice_status_lem invoice.invoice_id i db₁ (lookup invoice.invoice_id db₁.invoices)
            refl),
    ),
    money-marked db db₁ credit money,
  )

  settled :
      (db db₁ db₂ : Db) (credit : Option CreditTransaction)
      → Credited db credit db₁
      → Marked db₁ tt db₂
      → Settled db credit db₂
  unfolding Marked
  settled db db₁ db₂ credit c m = rw (m.1) (Settled-marked db db₁ credit c m.0)

  settle_body-Settled :
      (db : Db)
      → IsExact env
      → abs (balance_of db invoice.username) ≤ 2 ^ 53
      → abs invoice.amount_usd_microcents ≤ 2 ^ 53
      → Ensures (Settled db) (settle_body env invoice payment_type db)
  unfolding settle_body
  settle_body-Settled db x h k =
      Ensures-bind (Settled db) (Credited db)
        (λ d.
          let (r, d') =
            process_payment_in_tx env invoice.username invoice.amount_usd_microcents
              invoice.provider_invoice_id payment_type d in
          credit_or_existing env invoice.provider_invoice_id r d')
        (λ credit. mark_paid_if_pending env invoice.invoice_id >> pure credit) db
        (credit_or_existing-Credited db
          (process_payment_in_tx env invoice.username invoice.amount_usd_microcents
            invoice.provider_invoice_id payment_type db)
          (process_payment_in_tx-PaidOnce env invoice.username invoice.amount_usd_microcents
            invoice.provider_invoice_id payment_type db x h k)
          (process_payment_in_tx-Leaves env invoice.username invoice.amount_usd_microcents
            invoice.provider_invoice_id payment_type db x h k))
        (λ credit db₁ c.
          Ensures-bind (Settled db) (Marked db₁) (mark_paid_if_pending env invoice.invoice_id)
            (λ u. pure credit) db₁ (mark-Marked db₁) (λ u db₂ m. settled db db₁ db₂ credit c m))

  -- Settling an invoice whose status was read as pending. On success the invoice was pending in the
  -- tables and is paid, and no other invoice has changed; if the provider's invoice had no ledger
  -- row, the user has the amount and the ledger one new row under it; if it had one, the ledger
  -- is as it was, but the user has the amount all the same. On an error nothing has changed. For
  -- balances and amounts up to 2^53 microcents.
  pub settle_pending-Atomic :
      (db : Db)
      → IsExact env
      → abs (balance_of db invoice.username) ≤ 2 ^ 53
      → abs invoice.amount_usd_microcents ≤ 2 ^ 53
      → invoice.status ≡ pending
      → Atomic db (Settled db) (settle_uncredited env invoice payment_type db)
  unfolding settle_uncredited
  settle_pending-Atomic db x h k s = rw s (
      run_tx-Atomic (Settled db) env invoice.username (settle_body env invoice payment_type) db
        (settle_body-Settled db x h k))
