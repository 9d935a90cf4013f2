-- ===== src/Billing.antt =====
-- billing/ and the ledger tables of models/credits.go and models/payments.go: the hourly meter, the
-- daily settlement sweep, gifts and payments.
pub mod State
pub mod Balance
pub mod Gift
pub mod Payments
pub mod Meter
pub mod Rates
pub mod Scheduler
pub mod PriceLaws
pub mod Calendar
pub mod Sweep
pub mod Triples
pub mod Ledger
pub mod Posting
pub mod PaymentLaws
pub mod Duplicates
pub mod SettleLaws
pub mod Interference
pub mod MeterLaws
pub mod TickLaws
pub mod SweepLaws
pub mod Conservation
pub mod Totality
pub mod Completeness
mod Examples
mod PriceExamples
