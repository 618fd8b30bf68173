-- ===== src/Wiring.antt =====
-- order-service/internal/config and internal/app: the settings, and the parts that are built from them.
pub mod Config
pub mod Startup
pub mod Bounds
