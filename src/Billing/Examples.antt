-- ===== src/Billing/Examples.antt =====
-- The theorems on billing/ at a small ledger: one user with one payment behind them, a pending
-- invoice and an unbilled hour.
use arkfile.Base.{◌^◌, ◌≤◌, ◌≡◌, refl, true, false, Option, none, some, [], ◌∷◌, arith, String}
use arkfile.Base.Int.{pos, abs, ◌+ℤ◌, ◌-ℤ◌, add64, wrap64}
use arkfile.Base.Table.{lookup, insert}
use arkfile.Billing.State.{
  payment, pending, CreditTransaction, PaymentInvoice, Db, Env, IsExact, Result, ok, balance_of,
}
use arkfile.Billing.Triples.{Atomic}
use arkfile.Billing.Ledger.{IsBalanced, total}
use arkfile.Billing.Gift.{gift_credits}
use arkfile.Billing.Payments.{
  payment_row, append_unique, pay_balance, process_payment_in_tx, process_payment,
  has_transaction_id, credit_exists, update_payment_invoice_status, mark_paid_if_pending,
  is_duplicate_transaction_id_error, settle_body, settle_uncredited, settle_payment_invoice,
}
use arkfile.Billing.Balance.{create_if_missing, read_or_create_balance, write_balance, append_row}
use arkfile.Billing.Meter.{Rate, BillingConfig, tick_charge, tick_all_active_users}
use arkfile.Billing.Sweep.{settle_one_user, sweep_all_users}
use arkfile.Billing.Posting.{Posted, gift_credits-Atomic}
use arkfile.Billing.PaymentLaws.{PaidOnce, process_payment-Atomic}
use arkfile.Billing.SettleLaws.{Settled, settle_pending-Atomic}
use arkfile.Billing.Interference.{IsOffBy, excess, settle_payment_invoice-IsOffBy}
use arkfile.Billing.MeterLaws.{tick_charge_floor, unbilled_of}
use arkfile.Billing.TickLaws.{AllTicked, tick_all_active_users-charges}
use arkfile.Billing.SweepLaws.{Settles, settle_one_user-Atomic}
use arkfile.Billing.Totality.{is_ok, process_payment-is_ok}
use arkfile.Billing.Completeness.{BillsAll, sweep_all_users-BillsAll}
use arkfile.Billing.Conservation.{AreInRange, sweep_all_users-conserves}

abbrev plain_env : Env
plain_env = record {
  scan = λ z. z;
  parse_sql = λ s. none;
  parse_rfc3339 = λ s. none;
  stored_time = λ n. "now";
  fails = λ s user. false;
}

plain_env-IsExact : IsExact plain_env
plain_env-IsExact z h = refl

abbrev first_payment : CreditTransaction
first_payment = record {
  transaction_id = some "tx1";
  username = "ada";
  amount_usd_microcents = pos 500;
  balance_after_usd_microcents = pos 500;
  transaction_type = payment;
  reason = "first";
  admin_username = none;
  metadata = none;
}

abbrev open_invoice : PaymentInvoice
open_invoice = record {
  invoice_id = "inv1";
  username = "ada";
  amount_usd_microcents = pos 300;
  status = pending;
  provider_invoice_id = "tx2";
}

abbrev ledger : Db
ledger = record {
  user_credits = ("ada", pos 500) ∷ [];
  credit_transactions = first_payment ∷ [];
  accumulators =
      ("ada", record { unbilled_microcents = pos 70; last_tick_at = 5; last_billed_at = none })
      ∷ [];
  users =
      ("ada", record { total_storage_bytes = pos 3221225472; is_approved = true; is_admin = none })
      ∷ [];
  invoices = ("inv1", open_invoice) ∷ [];
}

abbrev hourly : Rate
hourly = record { microcents_per_gib_per_hour = pos 1000; customer_price_usd_per_tb_per_month = [] }

abbrev baseline : BillingConfig
baseline = record { free_baseline_bytes = pos 1073741824; include_admins = false }

balance_in_range : (user : String) → abs (balance_of ledger user) ≤ 2 ^ 53
unfolding balance_of lookup
balance_in_range user = ground arith

ledger-AreInRange : AreInRange ledger
unfolding balance_of unbilled_of lookup
ledger-AreInRange user = (balance_in_range user, ground arith)

ledger-IsBalanced : IsBalanced ledger
unfolding balance_of lookup total ◌+ℤ◌
ledger-IsBalanced user = ground arith

gift_credits-Atomic_example :
    Atomic ledger
      (Posted "ada" (pos 40) ledger)
      (gift_credits plain_env "ada" (pos 40) "thanks" "root" ledger)
gift_credits-Atomic_example =
    gift_credits-Atomic plain_env "ada" (pos 40) "thanks" "root" ledger plain_env-IsExact
      (balance_in_range "ada") (omega arith)

process_payment-Atomic_example :
    Atomic ledger
      (PaidOnce plain_env "ada" (pos 40) "tx9" "card" ledger)
      (process_payment plain_env "ada" (pos 40) "tx9" "card" ledger)
process_payment-Atomic_example =
    process_payment-Atomic plain_env "ada" (pos 40) "tx9" "card" ledger plain_env-IsExact
      (balance_in_range "ada") (omega arith)

settle_pending-Atomic_example :
    Atomic ledger
      (Settled plain_env open_invoice "card" ledger)
      (settle_uncredited plain_env open_invoice "card" ledger)
settle_pending-Atomic_example =
    settle_pending-Atomic plain_env open_invoice "card" ledger plain_env-IsExact
      (balance_in_range "ada") (omega arith) refl

-- Behind the first check another request credits the provider's invoice, and leaves the invoice
-- pending.
abbrev credited_elsewhere : Db → Db
credited_elsewhere db = record db {
  user_credits = ("ada", pos 800) ∷ [];
  credit_transactions = payment_row "ada" (pos 300) (pos 800) "tx2" "card" ∷ db.credit_transactions;
}

credited-IsBalanced : IsBalanced (credited_elsewhere ledger)
unfolding balance_of lookup total ◌+ℤ◌ payment_row
credited-IsBalanced user = ground arith

credited_in_range : abs (balance_of (credited_elsewhere ledger) "ada") ≤ 2 ^ 53
unfolding balance_of lookup
credited_in_range = omega arith

-- The settlement then succeeds with no row, and the user has the amount twice.
abbrev settled_again : Db × Result (Option CreditTransaction)
settled_again =
    settle_payment_invoice plain_env (some open_invoice) "card" credited_elsewhere ledger

credited_twice :
    (lookup "ada" settled_again.0.user_credits ≡ some (pos 1100))
    × (total "ada" settled_again.0.credit_transactions ≡ pos 800)
    × (settled_again.1 ≡ ok none)
unfolding settle_payment_invoice settle_uncredited settle_body process_payment_in_tx pay_balance
    append_unique append_row credit_exists has_transaction_id is_duplicate_transaction_id_error
    mark_paid_if_pending update_payment_invoice_status read_or_create_balance create_if_missing
    write_balance payment_row lookup insert total ◌+ℤ◌ add64 wrap64
credited_twice = (refl, refl, refl)

settle_payment_invoice-IsOffBy_example :
    IsOffBy "ada"
      (excess (has_transaction_id "tx2" (first_payment ∷ [])) (pos 300) settled_again.1)
      settled_again.0
settle_payment_invoice-IsOffBy_example =
    settle_payment_invoice-IsOffBy plain_env open_invoice "card" credited_elsewhere ledger
      plain_env-IsExact credited_in_range (omega arith) ledger-IsBalanced credited-IsBalanced

tick_charge_floor_example :
    tick_charge (pos 3221225472) (pos 1073741824) (pos 1000) ≡ some (pos 2000)
tick_charge_floor_example = tick_charge_floor 1073741824 2147483648 1000 (omega arith) (omega arith)

tick_all_active_users-charges_example :
    AllTicked plain_env hourly 9 baseline ledger
      (tick_all_active_users plain_env (some hourly) 9 baseline ledger)
unfolding lookup
tick_all_active_users-charges_example =
    tick_all_active_users-charges plain_env hourly 9 baseline ledger (λ s user. refl) (refl, tt)
      refl

settle_one_user-Atomic_example :
    Atomic ledger
      (Settles "ada" (pos 70) ledger)
      (settle_one_user plain_env hourly 9 "ada" (pos 70) none ledger)
settle_one_user-Atomic_example =
    settle_one_user-Atomic plain_env hourly 9 "ada" (pos 70) none ledger plain_env-IsExact
      (balance_in_range "ada") (omega arith)

sweep_all_users-conserves_example :
    ((user : String)
      → balance_of (sweep_all_users plain_env (some hourly) 9 ledger).0 user
          -ℤ unbilled_of (sweep_all_users plain_env (some hourly) 9 ledger).0 user
        ≡ balance_of ledger user -ℤ unbilled_of ledger user)
    × IsBalanced (sweep_all_users plain_env (some hourly) 9 ledger).0
unfolding lookup
sweep_all_users-conserves_example =
    sweep_all_users-conserves plain_env hourly 9 ledger plain_env-IsExact ledger-AreInRange
      (refl, tt) ledger-IsBalanced

process_payment-is_ok_example :
    is_ok (process_payment plain_env "ada" (pos 40) "tx9" "card" ledger).1 ≡ true
unfolding has_transaction_id
process_payment-is_ok_example =
    process_payment-is_ok plain_env "ada" (pos 40) "tx9" "card" ledger (λ s user. refl) refl refl
      refl refl

sweep_all_users-BillsAll_example :
    BillsAll ledger (sweep_all_users plain_env (some hourly) 9 ledger)
unfolding lookup
sweep_all_users-BillsAll_example =
    sweep_all_users-BillsAll plain_env hourly 9 ledger plain_env-IsExact (λ s user. refl)
      ledger-AreInRange (refl, tt)
