-- ===== src/Products.antt =====
-- The products that the order service reads: the table, and the two caches in front of it.
pub mod Table
pub mod Cached
pub mod Local
pub mod Coherence
pub mod Fresh
pub mod Race
pub mod Cancelled
