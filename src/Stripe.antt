-- ===== src/Stripe.antt =====
-- The mock Stripe backend of internal/devserver: its objects, its state, and the operations on money.
pub mod Form
pub mod Objects
pub mod State
pub mod Status
pub mod Keeps
pub mod Ledger
pub mod Transfer
pub mod Refund
pub mod PaymentIntent
pub mod Payout
pub mod Dispute
pub mod Run
pub mod Valid
pub mod Accounting
pub mod Lifecycle
pub mod Refusals
pub mod Events
pub mod BalanceSettings
