-- ===== src/Worker.antt =====
-- order-service/internal/worker: the background workers.
pub mod Backoff
pub mod Outbox
pub mod Reconcile
pub mod Refund
