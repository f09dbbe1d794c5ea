-- ===== src/Finance.antt =====
-- app/services/payments.py and app/services/ledger_v2.py.
pub mod Books
pub mod Samples
pub mod Ledger
pub mod Quotes
pub mod Payments
pub mod Refunds
pub mod Payouts
pub mod Settlement
pub mod Webhooks
pub mod Reconciliation
