-- ===== src/Domain/Order.antt =====
-- order-service/internal/domain/order.go.
-- A status is a string there; `other` is any string but the five that the code names.
-- NUMERIC(10,2) prices are natural numbers of kopecks (the schema's CHECK has price >= 0).
use microservice_architectur.Base.{
  ℕ, ◌+◌, Bool, false, Option, none, some, List, [], ◌∷◌, any, ◌==◌,
}

pub data OrderStatus : Type 0 where
  pending paid shipped delivered cancelled : OrderStatus
  other : ℕ → OrderStatus

-- The comparison of two statuses as strings.
abbrev number : OrderStatus → ℕ
number OrderStatus.pending = 0
number OrderStatus.paid = 1
number OrderStatus.shipped = 2
number OrderStatus.delivered = 3
number OrderStatus.cancelled = 4
number (OrderStatus.other n) = 5 + n

abbrev pub same_status : OrderStatus → OrderStatus → Bool
same_status s t = number s == number t

pub record OrderItem : Type 0 where
  pub id : ℕ
  pub order_id : ℕ
  pub product_id : ℕ
  pub quantity : ℕ
  pub price : ℕ

pub record Order : Type 0 where
  pub id : ℕ
  pub status : OrderStatus
  pub created_at : ℕ
  pub items : List OrderItem

pub record Product : Type 0 where
  pub id : ℕ
  pub name : ℕ
  pub price : ℕ
  pub stock : ℕ

pub record OrderCursor : Type 0 where
  pub after_id : ℕ
  pub created_at : ℕ

-- The map; a key that it lacks is `none`.
unfoldable pub allowed_transitions : OrderStatus → Option (List OrderStatus)
allowed_transitions OrderStatus.pending = some (OrderStatus.paid ∷ OrderStatus.cancelled ∷ [])
allowed_transitions OrderStatus.paid = some (OrderStatus.shipped ∷ OrderStatus.cancelled ∷ [])
allowed_transitions OrderStatus.shipped = some (OrderStatus.delivered ∷ [])
allowed_transitions OrderStatus.delivered = some []
allowed_transitions OrderStatus.cancelled = some []
allowed_transitions (OrderStatus.other n) = none

unfoldable pub can_transition : OrderStatus → OrderStatus → Bool
unfolding allowed_transitions
can_transition from to = elim (allowed_transitions from) [
  | none ↦ false
  | some allowed ↦ any (λ s. same_status s to) allowed
]
