-- ===== src/Reconciliation/Fix.antt =====
-- `fix` of order-service/internal/reconciliation/job.go: the repair of one discrepancy.
use microservice_architectur.Base.{
  ℕ, Bool, true, false, ◌&&◌, Option, none, some, ◌==◌, if◌then◌else◌, update, Error, Result, ok,
  err, Io,
}
use microservice_architectur.Domain.Payment.{PaymentStatus}
use microservice_architectur.Domain.Payment
use microservice_architectur.Store.{Db, RefundRow, RefundStatus}
use microservice_architectur.Payments.Transition.{transition}
use microservice_architectur.Reconciliation.Classify.{Action, Ours, Theirs}

-- What fails while one key is worked on: the transaction and the UPDATE of `fix`, and `record`.
pub record KeyFaults : Type 0 where
  pub transition_io : Io
  pub update_fault : Option Error
  pub record_fault : Option Error

-- UPDATE refunds SET status = 'succeeded' ... WHERE id = $1 AND status IN ('pending', 'manual_review')
abbrev pub is_open_refund : ℕ → RefundRow → Bool
is_open_refund id r = r.id == id && elim r.status [
  | RefundStatus.pending ↦ true
  | RefundStatus.succeeded ↦ false
  | RefundStatus.manual_review ↦ true
]

unfoldable pub confirm_refund : Option Error → ℕ → Db → Result (Unit {0}) × Db
confirm_refund (some e) id db = (err e, db)
confirm_refund none id db = (
  ok tt,
  record db {
    refunds =
        update (is_open_refund id) (λ r. record r { status = RefundStatus.succeeded }) db.refunds;
  },
)

-- The refund behind the payment's transition, if that went through.
unfoldable pub after_refunded : Option Error → ℕ → Result (Unit {0}) × Db → Result (Unit {0}) × Db
unfolding confirm_refund
after_refunded fault id (err e, db) = (err e, db)
after_refunded fault id (ok u, db) = confirm_refund fault id db

abbrev pub unknown_action : Error
unknown_action = Error.opaque 20

-- fix
unfoldable pub fix : KeyFaults → Action → Ours → Theirs → Db → Result (Unit {0}) × Db
unfolding confirm_refund after_refunded
fix f Action.fix_payment_succeeded ours th db =
    transition f.transition_io ours.payment_id PaymentStatus.succeeded (some th.charge_id) db
fix f Action.fix_payment_failed ours th db =
    transition f.transition_io ours.payment_id PaymentStatus.failed none db
fix f Action.fix_refund_succeeded ours th db =
    if Payment.same_status ours.status PaymentStatus.succeeded
    then after_refunded f.update_fault ours.refund_id
        (transition f.transition_io ours.payment_id PaymentStatus.refunded none db)
    else confirm_refund f.update_fault ours.refund_id db
fix f Action.no_action ours th db = (err unknown_action, db)
fix f Action.manual ours th db = (err unknown_action, db)
