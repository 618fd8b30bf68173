-- ===== src/Payments/Transition.antt =====
-- `Transition` of order-service/internal/repository/payment_repo.go.
use microservice_architectur.Base.{
  ℕ, Bool, not, ◌&&◌, Option, none, some, ◌==◌, if◌then◌else◌, find, update, any, Error, Result, ok,
  ◌>>=◌, ◌>>◌, Io, attempt, reject_if, or_fail, transact,
}
use microservice_architectur.Domain.Order.{OrderStatus}
use microservice_architectur.Domain.Order
use microservice_architectur.Domain.Payment.{PaymentStatus, can_transition_payment}
use microservice_architectur.Domain.Payment
use microservice_architectur.Store.{Db, OrderRow, PaymentRow}
use microservice_architectur.Payments.{add_payment_event}

-- COALESCE(NULLIF($2, ''), provider_payment_id)
abbrev pub keep_or : Option ℕ → Option ℕ → Option ℕ
keep_or none old = old
keep_or (some new) old = some new

abbrev pub moved_row : PaymentStatus → Option ℕ → PaymentRow → PaymentRow
moved_row to charge p = record p {
  status = to;
  provider_payment_id = keep_or charge p.provider_payment_id;
}

-- UPDATE payments SET status = $1, provider_payment_id = ... WHERE id = $3
unfoldable pub set_status : ℕ → PaymentStatus → Option ℕ → Db → Db
set_status id to charge db = record db {
  payments = update (λ p. p.id == id) (moved_row to charge) db.payments;
}

abbrev pub is_pending_order : ℕ → OrderRow → Bool
is_pending_order order_id o = o.id == order_id && Order.same_status o.status OrderStatus.pending

-- UPDATE orders SET status = 'paid' WHERE id = $1 AND status = 'pending'
unfoldable pub mark_paid : ℕ → Db → Db
mark_paid order_id db = record db {
  orders =
      update (is_pending_order order_id) (λ o. record o { status = OrderStatus.paid }) db.orders;
}

-- The `if to == domain.PaymentSucceeded` block.
unfoldable pub pay_order : Io → PaymentStatus → ℕ → Db → Result Db
unfolding mark_paid
pay_order io to order_id db =
    if not (Payment.same_status to PaymentStatus.succeeded) then ok db else do
      attempt (io 4)
      reject_if (not (any (is_pending_order order_id) db.orders)) Error.invalid_status_transition
      ok (mark_paid order_id db)

-- The transaction, its commit included.
unfoldable pub transition_body : Io → ℕ → PaymentStatus → Option ℕ → Db → Result (Unit {0} × Db)
unfolding set_status pay_order add_payment_event
transition_body io id to charge db = do
  attempt (io 1)
  p ← or_fail (find (λ (p : PaymentRow). p.id == id) db.payments) Error.payment_not_found
  reject_if (not (can_transition_payment p.status to)) Error.payment_transition
  attempt (io 2)
  attempt (io 3)
  db' ←
      pay_order io to p.order_id
        (add_payment_event id (some p.status) to (set_status id to charge db))
  attempt (io 5)
  ok (tt, db')

-- Transition; the reason of the event is text that nothing reads.
unfoldable pub transition : Io → ℕ → PaymentStatus → Option ℕ → Db → Result (Unit {0}) × Db
unfolding transition_body
transition io id to charge db = transact (io 0) (transition_body io id to charge) db
