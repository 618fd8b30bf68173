-- ===== src/Store.antt =====
-- The tables of order-service/migrations/goose that the order and payment code reads and writes.
--
-- A table is the list of its rows, the newest first. Each sequence of ids is drawn from the one
-- counter `next_id`. Amounts are in kopecks, times in nanoseconds; texts that the code only compares
-- (keys, charge ids, event types) are numbers, and NULL is `none`. The columns that the code writes
-- and never reads (updated_at, last_error, currency) are left out.
pub mod Rows
pub mod Keys
pub mod Batches
use microservice_architectur.Base.{ℕ, Bool, Option, List}
use microservice_architectur.Domain.Order.{OrderStatus, OrderItem, Product}
use microservice_architectur.Domain.Payment.{PaymentStatus}

pub record OrderRow : Type 0 where
  pub id : ℕ
  pub status : OrderStatus
  pub created_at : ℕ

pub record PaymentRow : Type 0 where
  pub id : ℕ
  pub order_id : ℕ
  pub amount : ℕ
  pub status : PaymentStatus
  pub provider_payment_id : Option ℕ
  pub idempotency_key : Option ℕ
  pub created_at : ℕ
  pub reconcile_attempts : ℕ
  pub next_reconcile_at : ℕ
  pub manual_review : Bool

pub record PaymentEvent : Type 0 where
  pub payment_id : ℕ
  pub from_status : Option PaymentStatus
  pub to_status : PaymentStatus

pub data RefundStatus : Type 0 where
  pending succeeded manual_review : RefundStatus

pub record RefundRow : Type 0 where
  pub id : ℕ
  pub payment_id : ℕ
  pub amount : ℕ
  pub status : RefundStatus
  pub attempts : ℕ
  pub next_attempt_at : ℕ
  pub provider_refund_id : Option ℕ

-- idempotency_keys: `order_id` is 0 until the order is made.
pub record KeyRow : Type 0 where
  pub key : ℕ
  pub order_id : ℕ

-- outbox, as `Insert` writes it; its relay has a table of its own rows in Worker/Outbox.antt.
pub record OutboxEvent : Type 0 where
  pub aggregate_id : ℕ
  pub event_type : ℕ

pub record Db : Type 0 where
  pub orders : List OrderRow
  pub order_items : List OrderItem
  pub products : List Product
  pub payments : List PaymentRow
  pub payment_events : List PaymentEvent
  pub refunds : List RefundRow
  pub idempotency_keys : List KeyRow
  pub outbox : List OutboxEvent
  pub next_id : ℕ
