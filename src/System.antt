-- ===== src/System.antt =====
-- The order service as a whole: its requests and its workers on the one store, in any order.
--
-- A step is one transaction or one statement, as PostgreSQL serialises them, of any request or worker,
-- with any arguments; or a whole request or round without a break. So every interleaving of requests
-- and workers is a sequence of steps. What the provider answers, which statements fail and at what
-- times they are made is arbitrary in every step.
pub mod Balance
pub mod Stocked
pub mod Placed
pub mod Made
pub mod Created
pub mod Freed
pub mod Cancelled
pub mod Effect
pub mod Stock
pub mod Committed
pub mod Owed
pub mod Resumed
use microservice_architectur.Base.{ℕ, ◌≡◌, Bool, Option, List, Error, Result, ok, Io, transact}
use microservice_architectur.Domain.Payment.{PaymentStatus}
use microservice_architectur.Store.{Db, PaymentRow, RefundRow}
use microservice_architectur.Orders.Create.{Line}
use microservice_architectur.Payments.{start}
use microservice_architectur.Payments.Transition.{transition}
use microservice_architectur.Provider.{Provider, ChargeStatus, ProviderCharge}
use microservice_architectur.Service.Orders.{cancel_order}
use microservice_architectur.Service.Pay.{pay}
use microservice_architectur.Service.Pay
use microservice_architectur.Service.Place.{
  CreateOrderItem, TxFaults, validate, tx_body, place_order,
}
use microservice_architectur.Worker.Reconcile.{
  ReconcileWorker, StuckPayment, lease_batch, schedule, manual,
}
use microservice_architectur.Worker.Reconcile
use microservice_architectur.Worker.Refund.{
  RefundWorker, DueRefund, lease_refunds, mark_succeeded, mark_failed,
}
use microservice_architectur.Worker.Refund
use microservice_architectur.Reconciliation.Fix.{confirm_refund}
use microservice_architectur.Reconciliation.Job.{JobDb}
use microservice_architectur.Reconciliation.Run.{RunFaults, run}

pub data Step (db : Db) (db' : Db) : Type 1 where
  -- the transactions of the requests
  order_tx :
      (f : TxFaults) (items : List CreateOrderItem) (lines : List Line) (key : Option ℕ) (now : ℕ)
      → validate items ≡ ok lines
      → db' ≡ (transact f.begin (tx_body f lines key now) db).1
      → Step db db'
  cancel_tx :
      (read io : Io) (id now : ℕ) (seen : Db)
      → db' ≡ (cancel_order read io id now seen db).1
      → Step db db'
  start_tx :
      (io : Io) (key_first : Bool) (order_id : ℕ) (key : Option ℕ) (now : ℕ)
      → db' ≡ (start io key_first order_id key now db).1
      → Step db db'
  transition_tx :
      (io : Io) (id : ℕ) (to : PaymentStatus) (charge : Option ℕ)
      → db' ≡ (transition io id to charge db).1
      → Step db db'
  -- the transactions of the workers and of the reconciliation
  lease_payments :
      (w : ReconcileWorker) (now : ℕ) (batch : List PaymentRow)
      → db' ≡ lease_batch w now batch db
      → Step db db'
  put_off :
      (f : Reconcile.Faults) (p : StuckPayment) (after : ℕ)
      → db' ≡ schedule f p after db
      → Step db db'
  hand_over : (f : Reconcile.Faults) (p : StuckPayment) → db' ≡ manual f p db → Step db db'
  lease_due :
      (w : RefundWorker) (now : ℕ) (batch : List RefundRow)
      → db' ≡ lease_refunds w now batch db
      → Step db db'
  refund_done :
      (io : Io) (d : DueRefund) (provider_id : ℕ)
      → db' ≡ (mark_succeeded io d provider_id db).1
      → Step db db'
  refund_failed :
      (w : RefundWorker) (fault : Option Error) (now : ℕ) (d : DueRefund)
      → db' ≡ (mark_failed w fault now d db).1
      → Step db db'
  refund_confirmed :
      (fault : Option Error) (id : ℕ) → db' ≡ (confirm_refund fault id db).1 → Step db db'
  -- whole requests, rounds and runs
  order_request :
      (producer : Bool) (faults : ℕ → TxFaults) (waits : ℕ → Option Error) (jitter : ℕ → ℕ)
      (items : List CreateOrderItem) (key : Option ℕ) (now : ℕ)
      → db' ≡ (place_order producer faults waits jitter items key now db).1.0
      → Step db db'
  pay_request :
      (f : Pay.Faults) (order_id : ℕ) (key : Option ℕ) (now : ℕ) (provider : Provider)
      → db' ≡ (pay f order_id key now (record { db = db; provider = provider })).1.db
      → Step db db'
  reconcile_round :
      (w : ReconcileWorker) (query reading : Option Error) (locked : ℕ → Bool) (now : ℕ)
      (faults : ℕ → Reconcile.Faults) (check : ℕ → Result ChargeStatus)
      → db' ≡ (Reconcile.process_due w query reading locked now faults check db).1
      → Step db db'
  refund_round :
      {S : Type 0} (refund : ℕ → Option ℕ → ℕ → S → Result ℕ × S) (w : RefundWorker)
      (query reading : Option Error) (locked : ℕ → Bool) (now : ℕ) (faults : ℕ → Refund.Faults)
      (s : S)
      → db' ≡ (Refund.process_due refund w query reading locked now faults s db).1.1
      → Step db db'
  reconciliation_run :
      (list : ℕ → ℕ → Result (List ProviderCharge)) (f : RunFaults) (order : List ℕ → List ℕ)
      (from to : ℕ) (s : JobDb)
      → s.db ≡ db
      → db' ≡ (run list f order from to s).1.1.db
      → Step db db'

pub data Reach (db : Db) : Db → Type 1 where
  here : Reach db db
  next : {mid db' : Db} → Reach db mid → Step mid db' → Reach db db'
