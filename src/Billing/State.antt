-- ===== src/Billing/State.antt =====
-- The tables that billing/ reads and writes, its errors, and its transactions. An SQL statement is
-- a pure function of the tables; whether it fails is decided by the environment, statement by
-- statement. `database/sql`, rqlite and `time.Parse` are not code of the repository, so they enter
-- as the record `Env`.
use arkfile.Base.{ℕ, ◌≤◌, ◌^◌, ◌≡◌, Bool, Option, none, some, List, String, if◌then◌else◌}
use arkfile.Base.Int.{ℤ, pos, abs}
use arkfile.Base.Table.{Table, lookup}

-- `transaction_type`
pub data TransactionType : Type 0 where
  usage gift adjustment payment : TransactionType

-- `SettlementMetadata`
pub record SettlementMetadata : Type 0 where
  pub drained_microcents : ℤ
  pub rate_microcents_per_gib_per_hour : ℤ
  pub period_start : ℕ
  pub period_end : ℕ
  pub ticks_count : ℕ

-- A row of `credit_transactions`, without its row number and timestamp.
pub record CreditTransaction : Type 0 where
  pub transaction_id : Option String
  pub username : String
  pub amount_usd_microcents : ℤ
  pub balance_after_usd_microcents : ℤ
  pub transaction_type : TransactionType
  pub reason : String
  pub admin_username : Option String
  pub metadata : Option SettlementMetadata

-- A row of `storage_usage_accumulator`.
pub record Accumulator : Type 0 where
  pub unbilled_microcents : ℤ
  pub last_tick_at : ℕ
  pub last_billed_at : Option String

-- The columns of `users` that the meter reads. `is_admin` may be NULL.
pub record UserRow : Type 0 where
  pub total_storage_bytes : ℤ
  pub is_approved : Bool
  pub is_admin : Option Bool

-- `status` of `payment_invoices`
pub data InvoiceStatus : Type 0 where
  pending paid expired failed : InvoiceStatus

-- `PaymentInvoice`
pub record PaymentInvoice : Type 0 where
  pub invoice_id : String
  pub username : String
  pub amount_usd_microcents : ℤ
  pub status : InvoiceStatus
  pub provider_invoice_id : String

-- `credit_transactions` has its newest row first.
pub record Db : Type 0 where
  pub user_credits : Table ℤ
  pub credit_transactions : List CreditTransaction
  pub accumulators : Table Accumulator
  pub users : Table UserRow
  pub invoices : Table PaymentInvoice

-- The statements that may fail.
pub data Stmt : Type 0 where
  begin commit select_balance insert_credits update_balance insert_transaction : Stmt
  select_storage upsert_accumulator list_users list_accumulators reset_accumulator : Stmt
  count_credit update_invoice list_invoices scan_row : Stmt

-- `scan` is `int64(float64(x))`, the way an integer column comes back from rqlite. A time is
-- stored as a text, which one of two layouts may read.
pub record Env : Type 0 where
  pub scan : ℤ → ℤ
  pub parse_sql : String → Option ℕ
  pub parse_rfc3339 : String → Option ℕ
  pub stored_time : ℕ → String
  pub fails : Stmt → String → Bool

-- A float64 holds every integer up to 2^53.
abbrev pub IsExact : Env → Type 0
IsExact env = (z : ℤ) → abs z ≤ 2 ^ 53 → env.scan z ≡ z

pub data BillingError : Type 0 where
  db_error : Stmt → BillingError
  no_rows empty_username not_positive empty_reason empty_admin empty_transaction_id : BillingError
  nil_rate nil_invoice missing_provider_id not_settleable no_longer_pending : BillingError

pub data Result {ℓ} (A : Type ℓ) : Type ℓ where
  ok : A → Result A
  err : BillingError → Result A

-- A body that runs inside a transaction: it reads and writes the transaction's view.
abbrev pub Tx : Type 0 → Type 0
Tx A = Db → Result (A × Db)

infixl 5 ◌>>=◌ ◌>>◌
abbrev pub ◌>>=◌ : {A B : Type 0} → Tx A → (A → Tx B) → Tx B
◌>>=◌ m f db = elim (m db) [ ok (a, db') ↦ f a db' | err e ↦ err e ]

abbrev pub ◌>>◌ : {B : Type 0} → Tx (Unit {0}) → Tx B → Tx B
m >> k = m >>= λ _. k

abbrev pub pure : {A : Type 0} → A → Tx A
pure a db = ok (a, db)

abbrev pub fail : {A : Type 0} → BillingError → Tx A
fail e db = err e

abbrev pub require : Bool → BillingError → Tx (Unit {0})
require c e db = if c then ok (tt, db) else err e

-- `tx.Exec`
abbrev pub exec : Env → Stmt → String → (Db → Db) → Tx (Unit {0})
exec env s user f db = if env.fails s user then err (db_error s) else ok (tt, f db)

-- `tx.QueryRow`
abbrev pub query : {A : Type 0} → Env → Stmt → String → (Db → A) → Tx A
query env s user f db = if env.fails s user then err (db_error s) else ok (f db, db)

-- `Begin`, the body, `Commit`, with `defer tx.Rollback()`: the tables change on commit only.
abbrev pub run_tx : {A : Type 0} → Env → String → Tx A → Db → Db × Result A
run_tx env user body db = elim ((exec env begin user (λ d. d) >> body) db) [
  | ok (a, db') ↦ if env.fails commit user then (db, err (db_error commit)) else (db', ok a)
  | err e ↦ (db, err e)
]

-- The balance that a user has: 0 with no row.
abbrev pub balance_or_zero : Option ℤ → ℤ
balance_or_zero none = pos 0
balance_or_zero (some b) = b

unfoldable pub balance_of : Db → String → ℤ
balance_of db user = balance_or_zero (lookup user db.user_credits)
