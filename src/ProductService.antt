-- ===== src/ProductService.antt =====
-- The program in product-service.
pub mod Inbox
pub mod Catalogue
