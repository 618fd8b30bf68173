-- ===== src/Reconciliation.antt =====
-- order-service/internal/reconciliation: our payments against the list of charges of the provider.
pub mod Classify
pub mod Agreement
pub mod Ledgers
pub mod Fix
pub mod Job
pub mod Run
pub mod Keys
pub mod Lease
