-- ===== src/System/Owed.antt =====
-- The money of the orders: what is paid, what stands and what is owed back, over the tables of
-- order-service/internal/repository.
pub mod Begun
pub mod PaidBack
pub mod Reached
pub mod CalledOff
pub mod Refunds
pub mod Ordered
pub mod Moved
use microservice_architectur.Base.{
  ℕ, ◌+◌, ◌≤◌, ◌<◌, ◌≡◌, refl, Bool, true, false, ◌&&◌, some, List, [], ◌∷◌, ◌==◌, if◌then◌else◌,
  find, update, any, count, All, arith, Bool-cases, inl, inr,
}
use microservice_architectur.Domain.Order.{OrderStatus}
use microservice_architectur.Domain.Payment.{PaymentStatus}
use microservice_architectur.Store.{Db, OrderRow, PaymentRow, RefundRow}
use microservice_architectur.Store.Rows.{Below, All-imp}
use microservice_architectur.Payments.Invariant.{IsValid}

abbrev pub HasStatus : OrderStatus → ℕ → OrderRow → Type 0
HasStatus s id o = o.id ≡ id → o.status ≡ s

-- The order of a pending payment is pending.
abbrev pub Waits : List OrderRow → PaymentRow → Type 0
Waits os p = p.status ≡ PaymentStatus.pending → All (HasStatus OrderStatus.pending p.order_id) os

abbrev pub is_refund_of : PaymentRow → RefundRow → Bool
is_refund_of p r = r.payment_id == p.id && r.amount == p.amount

abbrev pub OwedFor : List RefundRow → PaymentRow → OrderRow → Type 0
OwedFor rs p o =
    o.id ≡ p.order_id → o.status ≡ OrderStatus.cancelled → any (is_refund_of p) rs ≡ true

-- A payment that has succeeded for an order that is cancelled has its refund, of its amount.
abbrev pub Owed : List OrderRow → List RefundRow → PaymentRow → Type 0
Owed os rs p = p.status ≡ PaymentStatus.succeeded → All (OwedFor rs p) os

-- A refund's payment: its amount, and its order, which is cancelled.
abbrev pub Backs : List OrderRow → RefundRow → PaymentRow → Type 0
Backs os r p =
    p.id ≡ r.payment_id
    → (p.amount ≡ r.amount) × All (HasStatus OrderStatus.cancelled p.order_id) os

abbrev pub Backed : List OrderRow → List PaymentRow → ℕ → RefundRow → Type 0
Backed os ps n r = (r.payment_id < n) × All (Backs os r) ps

abbrev pub refunds_for : ℕ → List RefundRow → ℕ
refunds_for k rs = count (λ r. r.payment_id == k) rs

pub record IsOwed (db : Db) : Type 0 where
  pub valid : IsValid db
  pub orders_keyed : Below (λ o. o.id) db.next_id db.orders
  -- every payment's order has been made
  pub payments_refer : All (λ p. p.order_id < db.next_id) db.payments
  pub waits : All (Waits db.orders) db.payments
  pub owed : All (Owed db.orders db.refunds) db.payments
  pub backed : All (Backed db.orders db.payments db.next_id) db.refunds
  -- no payment has two refunds
  pub one_refund : (k : ℕ) → refunds_for k db.refunds ≤ 1
