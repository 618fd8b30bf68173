-- ===== src/Tests.antt =====
-- Concrete inputs at which the theorems of the library apply.
mod Resilience
mod Stores
mod Payments
mod Workers
mod Orders
mod Caches
mod Ledgers
mod Services
mod System
mod Wiring
mod Races
