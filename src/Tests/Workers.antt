-- ===== src/Tests/Workers.antt =====
-- Runs of the reconcile worker and the refund worker at concrete inputs.
use microservice_architectur.Base.{
  ℕ, ◌≡◌, ◌⊎◌, refl, true, false, Option, none, some, [], ◌∷◌, Error, Result, ok, err, healthy,
  arith, ◌+◌, All,
}
use microservice_architectur.Domain.Order.{OrderStatus}
use microservice_architectur.Domain.Payment.{PaymentStatus}
use microservice_architectur.Store.{Db, RefundStatus}
use microservice_architectur.Payments.Invariant
use microservice_architectur.Provider.{Provider, charge_succeeded, refund, ChargeStatus}
use microservice_architectur.Worker.Reconcile
use microservice_architectur.Worker.Reconcile.{
  ReconcileWorker, StuckPayment, new_reconcile_worker, reconcile,
}
use microservice_architectur.Worker.Reconcile.Told.{SameMoney, MovesAsTold, reconcile-told}
use microservice_architectur.Worker.Reconcile.Leaves.{HasLeft, reconcile-HasLeft}
use microservice_architectur.Worker.Refund
use microservice_architectur.Worker.Refund.{
  new_refund_worker, due_batch, lease_refunds, due_refund, DueRefund, set_succeeded, mark_succeeded,
}
use microservice_architectur.Worker.Refund.Settles.{waits, IsPaid, process_due-IsPaidOut}
use microservice_architectur.Tests.Stores.{a_payment, no_payments, one_payment}

abbrev a_stuck_payment : StuckPayment
a_stuck_payment = record { id = 5; key = some 77; attempts = 1; age = 130000000000 }

abbrev fine : Reconcile.Faults
fine = record { transition_io = healthy; update_fault = none; now = 200 }

-- The provider has charged key 77.
abbrev knows_charge : ℕ → Result ChargeStatus
knows_charge key = ok (charge_succeeded 40)

reconcile-told_example :
    SameMoney one_payment
      (reconcile new_reconcile_worker fine knows_charge a_stuck_payment one_payment)
    ⊎ ((key : ℕ) × (answer : ChargeStatus) × (some 77 ≡ some key)
        × (knows_charge key ≡ ok answer)
        × MovesAsTold new_reconcile_worker a_stuck_payment answer one_payment
            (reconcile new_reconcile_worker fine knows_charge a_stuck_payment one_payment))
reconcile-told_example =
    reconcile-told new_reconcile_worker fine knows_charge a_stuck_payment one_payment

-- The last round for the same payment, old and often tried, over a database that loses the connection
-- in each transaction.
abbrev often_tried : StuckPayment
often_tried = record { id = 5; key = some 77; attempts = 10; age = 900000000000 }

abbrev unlucky : Reconcile.Faults
unlucky = record { transition_io = λ n. some Error.canceled; update_fault = none; now = 200 }

reconcile-HasLeft_example :
    HasLeft 5 (reconcile new_reconcile_worker unlucky knows_charge often_tried one_payment)
unfolding new_reconcile_worker
reconcile-HasLeft_example =
    reconcile-HasLeft new_reconcile_worker unlucky often_tried a_payment one_payment (omega arith)
      refl (λ n e. ground arith) refl refl knows_charge (omega arith)

-- The payment has succeeded, the order is cancelled, and its refund is due.
abbrev one_refund : Db
one_refund = record no_payments {
  orders = record { id = 1; status = OrderStatus.cancelled; created_at = 3 } ∷ [];
  payments =
      record a_payment { status = PaymentStatus.succeeded; provider_payment_id = some 40 } ∷ [];
  payment_events =
      record {
        payment_id = 5;
        from_status = some PaymentStatus.pending;
        to_status = PaymentStatus.succeeded;
      }
      ∷ [];
  refunds =
      record {
        id = 6;
        payment_id = 5;
        amount = 500;
        status = RefundStatus.pending;
        attempts = 0;
        next_attempt_at = 0;
        provider_refund_id = none;
      }
      ∷ [];
  next_id = 7;
}

one_refund-IsValid : Invariant.IsValid one_refund
one_refund-IsValid = record {
  fresh = (omega arith, tt);
  one_active = λ o. ground arith;
  logged = (refl, tt);
  settled = ((λ e. ((λ f. ground arith), tt)), tt);
}

abbrev a_due_refund : DueRefund
a_due_refund = record { id = 6; payment_id = 5; amount = 500; attempts = 1; charge_id = some 40 }

-- The provider's `refund`, which nothing fails.
abbrev pub ask_provider : ℕ → Option ℕ → ℕ → Provider → Result ℕ × Provider
ask_provider id none amount p = (err Error.provider_declined, p)
ask_provider id (some charge_id) amount p = refund healthy true id charge_id amount p

abbrev pub recorded : Refund.Faults
recorded = record { succeeded_io = healthy; failed_fault = none; now = 60 }

-- A provider that accepts every refund, and counts them.
abbrev pays_out : ℕ → Option ℕ → ℕ → ℕ → Result ℕ × ℕ
pays_out id charge_id amount s = (ok (id + 100), s + 1)

process_due-IsPaidOut_example :
    All
      (λ r.
        waits (λ id. false) 50 r ≡ true
        → IsPaid
            (Refund.process_due pays_out new_refund_worker none none
              (λ id. false)
              50
              (λ id. recorded)
              0
              one_refund).1.1
            r)
      one_refund.refunds
unfolding due_batch lease_refunds due_refund new_refund_worker
process_due-IsPaidOut_example =
    process_due-IsPaidOut pays_out new_refund_worker (λ id. false) 50 7 (λ id. recorded) 0
      one_refund (λ id. refl) (omega arith, tt) (λ k. ground arith) ((λ open'. (_, refl, refl)), tt)
      (omega arith) ((λ s. (106, s + 1, refl)), tt)
