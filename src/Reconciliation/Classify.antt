-- ===== src/Reconciliation/Classify.antt =====
-- order-service/internal/reconciliation/classify.go. A finding's note is text that nothing reads.
use microservice_architectur.Base.{
  ℕ, Bool, true, false, not, ◌&&◌, ◌||◌, Option, none, some, ◌==◌, if◌then◌else◌,
}
use microservice_architectur.Domain.Payment.{PaymentStatus}
use microservice_architectur.Domain.Payment

pub data Kind : Type 0 where
  matched missing_at_provider missing_at_ours amount_mismatch status_mismatch : Kind

pub data Action : Type 0 where
  no_action fix_payment_succeeded fix_payment_failed fix_refund_succeeded manual : Action

-- The strings of `RefundStatus`; "" is `absent`.
pub data RefundState : Type 0 where
  absent pending succeeded manual_review : RefundState

pub record Ours : Type 0 where
  pub payment_id : ℕ
  pub order_id : ℕ
  pub key : ℕ
  pub amount : ℕ
  pub status : PaymentStatus
  pub charge_id : Option ℕ
  pub refund_id : ℕ
  pub refund_status : RefundState

-- The strings of `Theirs.Status`; `other` is any string but the three that the code names.
pub data TheirStatus : Type 0 where
  charged declined refunded : TheirStatus
  other : ℕ → TheirStatus

pub record Theirs : Type 0 where
  pub key : ℕ
  pub charge_id : ℕ
  pub amount : ℕ
  pub status : TheirStatus

pub record Finding : Type 0 where
  pub kind : Kind
  pub action : Action

-- Comparisons with the named strings.
abbrev pub is_charged : TheirStatus → Bool
is_charged TheirStatus.charged = true
is_charged _ = false

abbrev pub is_declined : TheirStatus → Bool
is_declined TheirStatus.declined = true
is_declined _ = false

abbrev pub is_refunded : TheirStatus → Bool
is_refunded TheirStatus.refunded = true
is_refunded _ = false

abbrev pub refund_succeeded : RefundState → Bool
refund_succeeded RefundState.succeeded = true
refund_succeeded _ = false

abbrev pub refund_open : RefundState → Bool
refund_open RefundState.pending = true
refund_open RefundState.manual_review = true
refund_open _ = false

abbrev pub is : PaymentStatus → PaymentStatus → Bool
is s t = Payment.same_status s t

-- The second `switch`, over two records whose amounts agree where money has moved.
unfoldable pub classify_status : Ours → Theirs → Finding
classify_status ours theirs =
    if (is ours.status PaymentStatus.succeeded && is_charged theirs.status)
      || (is ours.status PaymentStatus.failed && is_declined theirs.status)
      || (is ours.status PaymentStatus.expired && is_declined theirs.status)
      || (is ours.status PaymentStatus.refunded
          && is_refunded theirs.status
          && refund_succeeded ours.refund_status)
    then record { kind = matched; action = no_action }
    else if is ours.status PaymentStatus.pending && is_charged theirs.status
    then record { kind = status_mismatch; action = fix_payment_succeeded }
    else if is ours.status PaymentStatus.pending && is_declined theirs.status
    then record { kind = status_mismatch; action = fix_payment_failed }
    else if is_refunded theirs.status
        && not (ours.refund_id == 0)
        && refund_open ours.refund_status
        && (is ours.status PaymentStatus.succeeded || is ours.status PaymentStatus.refunded)
    then record { kind = status_mismatch; action = fix_refund_succeeded }
    else record { kind = status_mismatch; action = manual }

-- The case `theirs == nil`.
unfoldable pub classify_ours : PaymentStatus → Finding
classify_ours PaymentStatus.failed = record { kind = matched; action = no_action }
classify_ours PaymentStatus.expired = record { kind = matched; action = no_action }
classify_ours PaymentStatus.pending = record { kind = matched; action = no_action }
classify_ours _ = record { kind = missing_at_provider; action = manual }

unfoldable pub classify : Option Ours → Option Theirs → Finding
unfolding classify_status classify_ours
classify none none = record { kind = matched; action = no_action }
classify none (some theirs) =
    if is_declined theirs.status
    then record { kind = matched; action = no_action }
    else record { kind = missing_at_ours; action = manual }
classify (some ours) none = classify_ours ours.status
classify (some ours) (some theirs) =
    if (is_charged theirs.status || is_refunded theirs.status) && not (ours.amount == theirs.amount)
    then record { kind = amount_mismatch; action = manual }
    else classify_status ours theirs
