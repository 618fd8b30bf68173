-- ===== src/Orders.antt =====
-- order-service/internal/repository/order.go: making and cancelling orders.
--
-- `CreateOrder` runs in the transaction that its context carries, so its part here is the body of
-- one; `CancelOrder` begins its own. `Io` numbers the statements.
pub mod Create
pub mod Cancel
pub mod Read
pub mod Paging
pub mod Stock
pub mod Sorting
pub mod Roundtrip
