-- ===== src/Service.antt =====
-- order-service/internal/service: the operations behind the HTTP handlers.
pub mod Pay
pub mod Place
pub mod Orders
