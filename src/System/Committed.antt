-- ===== src/System/Committed.antt =====
-- The steps of the order service as committed transactions.
use microservice_architectur.Base.{ℕ, ◌≡◌, Io, inl, inr, Result-cases, Bool-cases, subst, sym}
use microservice_architectur.Domain.Order.{OrderStatus, same_status}
use microservice_architectur.Store.{Db}
use microservice_architectur.Orders.Read.{get_order_by_id}
use microservice_architectur.Payments.Change.{Changes}
use microservice_architectur.Payments.Change
use microservice_architectur.Payments.Operations.{start-Changes, transition-Changes}
use microservice_architectur.Service.Orders.{cancel_order}
use microservice_architectur.Service.Place.Calls.{place_order-keeps, validate-Distinct}
use microservice_architectur.Service.Pay.Safety.{pay-Changes}
use microservice_architectur.Worker.Reconcile.Keeps.{
  lease_batch-Changes, schedule-Changes, manual-Changes, process_due-Changes,
}
use microservice_architectur.Worker.Refund.Keeps.{
  lease_refunds-Changes, mark_succeeded-Changes, mark_failed-Changes,
}
use microservice_architectur.Worker.Refund.Keeps
use microservice_architectur.Reconciliation.Job.Repair.{confirm_refund-Changes, run-Changes}
use microservice_architectur.System.{
  Step, Reach, order_tx, cancel_tx, start_tx, transition_tx, lease_payments, put_off, hand_over,
  lease_due, refund_done, refund_failed, refund_confirmed, order_request, pay_request,
  reconcile_round, refund_round, reconciliation_run,
}
use microservice_architectur.System
use microservice_architectur.System.Created.{tx-IsCreated}
use microservice_architectur.System.Effect.{
  Effects, none_yet, then, created, Effects-trans, Changes-Effects, cancel_order-Effects,
}

cancel-Effects :
    (read io : Io) (id now : ℕ) (seen db : Db) → Effects db (cancel_order read io id now seen db).1
unfolding cancel_order
cancel-Effects read io id now seen db =
    let done = cancel_order-Effects io id now db in
    elim (Result-cases (get_order_by_id read id seen)) [
      | inl (e, failed) ↦ rw (failed, cancel_order) none_yet
      | inr (o, found) ↦
          rw (found, cancel_order)
            (elim (Bool-cases (same_status o.status OrderStatus.cancelled)) [
              | inl e ↦ rw e none_yet
              | inr e ↦ rw e done
            ])
    ]

-- Behind the changes of a step on the payments' side.
payment_step : {db db' : Db} (s : Db) → Changes db s → db' ≡ s → Effects db db'
payment_step s cs same = rw same (Changes-Effects cs)

pub Step-Effects : {db db' : Db} → Step db db' → Effects db db'
Step-Effects {db} {db'} (order_tx f items lines key now valid same) = rw same (
    then none_yet (created (tx-IsCreated f lines key now db (validate-Distinct items lines valid))))
Step-Effects {db} {db'} (cancel_tx read io id now seen same) =
    rw same (cancel-Effects read io id now seen db)
Step-Effects {db} {db'} (start_tx io key_first order_id key now same) =
    payment_step _ (start-Changes db db Change.here io key_first order_id key now) same
Step-Effects {db} {db'} (transition_tx io id to charge same) =
    payment_step _ (transition-Changes db db Change.here io id to charge) same
Step-Effects {db} {db'} (lease_payments w now batch same) =
    payment_step _ (lease_batch-Changes w now batch db Change.here) same
Step-Effects {db} {db'} (put_off f p after same) =
    payment_step _ (schedule-Changes f p after db Change.here) same
Step-Effects {db} {db'} (hand_over f p same) =
    payment_step _ (manual-Changes f p db Change.here) same
Step-Effects {db} {db'} (lease_due w now batch same) =
    payment_step _ (lease_refunds-Changes w now batch db Change.here) same
Step-Effects {db} {db'} (refund_done io d provider_id same) =
    payment_step _ (mark_succeeded-Changes io d provider_id db Change.here) same
Step-Effects {db} {db'} (refund_failed w fault now d same) =
    payment_step _ (mark_failed-Changes w fault now d db Change.here) same
Step-Effects {db} {db'} (refund_confirmed fault id same) =
    payment_step _ (confirm_refund-Changes fault id db Change.here) same
Step-Effects {db} {db'} (order_request producer faults waits jitter items key now same) = rw same (
    place_order-keeps (Effects db) producer faults waits jitter items key now db
      (λ lines f d valid es.
        then es (created (tx-IsCreated f lines key now d (validate-Distinct items lines valid))))
      none_yet)
Step-Effects {db} {db'} (pay_request f order_id key now provider same) =
    payment_step _ (pay-Changes f order_id key now (record { db = db; provider = provider })) same
Step-Effects {db} {db'} (reconcile_round w query reading locked now faults check same) =
    payment_step _ (process_due-Changes w query reading locked now faults check db Change.here) same
Step-Effects {db} {db'} (refund_round refund w query reading locked now faults s same) =
    payment_step _
      (Keeps.process_due-Changes refund w query reading locked now faults s db Change.here) same
Step-Effects {db} {db'} (reconciliation_run list f order from to s store same) =
    payment_step _
      (run-Changes list f order from to s (subst (λ d. Changes db d) (sym store) Change.here)) same

pub Reach-Effects : {db db' : Db} → Reach db db' → Effects db db'
Reach-Effects System.here = none_yet
Reach-Effects (System.next r s) = Effects-trans (Reach-Effects r) (Step-Effects s)
