-- ===== src/Http.antt =====
-- The HTTP interface of the order service.
pub mod Response
pub mod Requests
pub mod Pages
pub mod Guarded
pub mod Middleware
pub mod Served
pub mod Health
