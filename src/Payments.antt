-- ===== src/Payments.antt =====
-- Payments: core/common/models/payments and the functions of core/common/includes on them.
pub mod Types
pub mod Store
pub mod Ledger
pub mod Moves
pub mod Wallet
pub mod Transaction
pub mod ClusterWallet
pub mod Bill
pub mod Billing
pub mod Bills
pub mod Conservation
pub mod Creation
pub mod Safety
mod Tests
pub mod Outcome
pub mod Replay
pub mod Dispute
pub mod Webhook
pub mod Failures
