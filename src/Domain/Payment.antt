-- ===== src/Domain/Payment.antt =====
-- order-service/internal/domain/payment.go.
-- `other` is any string but the five that the code names.
use microservice_architectur.Base.{
  ℕ, ◌+◌, Bool, true, false, Option, none, some, List, [], ◌∷◌, any, ◌==◌,
}

pub data PaymentStatus : Type 0 where
  pending succeeded failed expired refunded : PaymentStatus
  other : ℕ → PaymentStatus

-- The comparison of two statuses as strings.
abbrev number : PaymentStatus → ℕ
number PaymentStatus.pending = 0
number PaymentStatus.succeeded = 1
number PaymentStatus.failed = 2
number PaymentStatus.expired = 3
number PaymentStatus.refunded = 4
number (PaymentStatus.other n) = 5 + n

abbrev pub same_status : PaymentStatus → PaymentStatus → Bool
same_status s t = number s == number t

-- The map; a key that it lacks is `none`, which a `range` reads as no element.
unfoldable pub allowed_payment_transitions : PaymentStatus → Option (List PaymentStatus)
allowed_payment_transitions PaymentStatus.pending =
    some (PaymentStatus.succeeded ∷ PaymentStatus.failed ∷ PaymentStatus.expired ∷ [])
allowed_payment_transitions PaymentStatus.succeeded = some (PaymentStatus.refunded ∷ [])
allowed_payment_transitions PaymentStatus.failed = some []
allowed_payment_transitions PaymentStatus.expired = some []
allowed_payment_transitions PaymentStatus.refunded = some []
allowed_payment_transitions (PaymentStatus.other n) = none

unfoldable pub can_transition_payment : PaymentStatus → PaymentStatus → Bool
unfolding allowed_payment_transitions
can_transition_payment from to = elim (allowed_payment_transitions from) [
  | none ↦ false
  | some allowed ↦ any (λ s. same_status s to) allowed
]

unfoldable pub is_terminal : PaymentStatus → Bool
unfolding allowed_payment_transitions
is_terminal s = elim (allowed_payment_transitions s) [
  | none ↦ false
  | some [] ↦ true
  | some (next ∷ rest) ↦ false
]

-- The result of an attempt to take an idempotency key; the body is its sequence of bytes.
pub record IdempotencyClaim : Type 0 where
  pub owner : Bool
  pub mismatch : Bool
  pub busy : Bool
  pub code : ℕ
  pub body : List ℕ
