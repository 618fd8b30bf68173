-- ===== src/Domain.antt =====
-- order-service/internal/domain: the orders' and payments' state machines and the shared structs.
-- Their theorems are in Domain/Lifecycle.antt.
pub mod Order
pub mod Payment
pub mod Lifecycle
