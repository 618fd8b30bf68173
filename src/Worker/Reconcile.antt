-- ===== src/Worker/Reconcile.antt =====
-- order-service/internal/worker/reconcile_worker.go: settling the payments that were left pending.
--
-- The provider's answer to a key is the function `check`, the worker's ChargeChecker. `Faults` says
-- what happens to the statements made for one payment, and when they are made.
pub mod Keeps
pub mod Told
pub mod Leaves
use microservice_architectur.Base.{
  ℕ, ◌+◌, ◌-◌, Bool, true, false, not, ◌&&◌, Option, none, some, List, [], ◌∷◌, ◌==◌, ltb, leb,
  if◌then◌else◌, oldest_first, take, select, update, any, map, Error, Result, ok, err, Io,
}
use microservice_architectur.Domain.Payment.{PaymentStatus}
use microservice_architectur.Domain.Payment
use microservice_architectur.Store.{Db, PaymentRow}
use microservice_architectur.Payments.Transition.{transition}
use microservice_architectur.Provider.{
  ChargeStatus, charge_not_found, charge_declined, charge_succeeded,
}
use microservice_architectur.Worker.Backoff.{backoff}

-- The durations are in nanoseconds, as Go's.
pub record ReconcileWorker : Type 0 where
  pub lease : ℕ
  pub stuck_after : ℕ
  pub expire_after : ℕ
  pub retry_base : ℕ
  pub retry_cap : ℕ
  pub max_attempts : ℕ
  pub batch : ℕ

-- NewReconcileWorker without options.
unfoldable pub new_reconcile_worker : ReconcileWorker
new_reconcile_worker = record {
  lease = 30000000000;
  stuck_after = 120000000000;
  expire_after = 900000000000;
  retry_base = 10000000000;
  retry_cap = 300000000000;
  max_attempts = 10;
  batch = 20;
}

pub record StuckPayment : Type 0 where
  pub id : ℕ
  pub key : Option ℕ
  pub attempts : ℕ
  pub age : ℕ

pub record Faults : Type 0 where
  -- the transaction of Transition, and the UPDATE of `schedule` or `manual`
  pub transition_io : Io
  pub update_fault : Option Error
  pub now : ℕ

abbrev pub is_pending_payment : ℕ → PaymentRow → Bool
is_pending_payment id p = p.id == id && Payment.same_status p.status PaymentStatus.pending

-- manual
unfoldable pub manual : Faults → StuckPayment → Db → Db
manual f p db = elim f.update_fault [
  | some e ↦ db
  | none ↦ record db {
    payments =
        update (is_pending_payment p.id) (λ q. record q { manual_review = true }) db.payments;
  }
]

-- schedule
unfoldable pub schedule : Faults → StuckPayment → ℕ → Db → Db
schedule f p after db = elim f.update_fault [
  | some e ↦ db
  | none ↦ record db {
    payments =
        update (is_pending_payment p.id) (λ q. record q { next_reconcile_at = f.now + after })
          db.payments;
  }
]

-- retryOrManual
unfoldable pub retry_or_manual : ReconcileWorker → Faults → StuckPayment → Db → Db
unfolding manual schedule
retry_or_manual w f p db =
    if leb w.max_attempts p.attempts
    then manual f p db
    else schedule f p (backoff w.retry_base w.retry_cap p.attempts) db

-- What `resolve` does behind Transition.
unfoldable pub after_transition :
    ReconcileWorker → Faults → StuckPayment → Result (Unit {0}) → Db → Db
unfolding retry_or_manual
after_transition w f p (ok u) db = db
after_transition w f p (err Error.payment_transition) db = db
after_transition w f p (err e) db = retry_or_manual w f p db

-- resolve
unfoldable pub resolve :
    ReconcileWorker → Faults → StuckPayment → PaymentStatus → Option ℕ → Db → Db
unfolding after_transition
resolve w f p to charge db =
    let (r, db') = transition f.transition_io p.id to charge db in after_transition w f p r db'

-- The `switch` of `reconcile`.
unfoldable pub by_answer : ReconcileWorker → Faults → StuckPayment → Result ChargeStatus → Db → Db
unfolding resolve retry_or_manual schedule
by_answer w f p (err e) db = retry_or_manual w f p db
by_answer w f p (ok (charge_succeeded c)) db = resolve w f p PaymentStatus.succeeded (some c) db
by_answer w f p (ok charge_declined) db = resolve w f p PaymentStatus.failed none db
by_answer w f p (ok charge_not_found) db =
    if leb w.expire_after p.age
    then resolve w f p PaymentStatus.expired none db
    else schedule f p (backoff w.retry_base w.retry_cap p.attempts) db

-- reconcile
unfoldable pub reconcile :
    ReconcileWorker → Faults → (ℕ → Result ChargeStatus) → StuckPayment → Db → Db
unfolding by_answer manual
reconcile w f check p db = elim p.key [
  | none ↦ manual f p db
  | some key ↦ by_answer w f p (check key) db
]

-- The WHERE of the lease; `locked` are the rows that another worker holds (SKIP LOCKED).
abbrev pub is_stuck : ReconcileWorker → (ℕ → Bool) → ℕ → PaymentRow → Bool
is_stuck w locked now p =
    Payment.same_status p.status PaymentStatus.pending
    && not p.manual_review
    && ltb (p.created_at + w.stuck_after) now
    && leb p.next_reconcile_at now
    && not (locked p.id)

unfoldable pub stuck_batch : ReconcileWorker → (ℕ → Bool) → ℕ → Db → List PaymentRow
stuck_batch w locked now db =
    take w.batch (oldest_first (select (is_stuck w locked now) db.payments) [])

abbrev pub leased_row : ReconcileWorker → ℕ → PaymentRow → PaymentRow
leased_row w now p = record p {
  reconcile_attempts = p.reconcile_attempts + 1;
  next_reconcile_at = now + w.lease;
}

-- A row that RETURNING gives back.
abbrev pub stuck_payment : ℕ → PaymentRow → StuckPayment
stuck_payment now p = record {
  id = p.id;
  key = p.idempotency_key;
  attempts = p.reconcile_attempts + 1;
  age = now - p.created_at;
}

unfoldable pub lease_batch : ReconcileWorker → ℕ → List PaymentRow → Db → Db
lease_batch w now batch db = record db {
  payments =
      update (λ p. any (λ (q : PaymentRow). q.id == p.id) batch) (leased_row w now) db.payments;
}

-- The loop over the batch.
unfoldable pub reconcile_all :
    ReconcileWorker → (ℕ → Faults) → (ℕ → Result ChargeStatus) → List StuckPayment → Db → Db
unfolding reconcile
reconcile_all w faults check [] db = db
reconcile_all w faults check (p ∷ ps) db =
    reconcile_all w faults check ps (reconcile w (faults p.id) check p db)

-- ProcessDue; `query` fails the leasing statement, `reading` the rows that it returns. The count
-- for the gauge has no other effect and its error is dropped.
unfoldable pub process_due :
    ReconcileWorker
    → Option Error
    → Option Error
    → (ℕ → Bool)
    → ℕ
    → (ℕ → Faults)
    → (ℕ → Result ChargeStatus)
    → Db
    → Result (Unit {0}) × Db
unfolding stuck_batch lease_batch reconcile_all
process_due w (some e) reading locked now faults check db = (err e, db)
process_due w none (some e) locked now faults check db =
    (err e, lease_batch w now (stuck_batch w locked now db) db)
process_due w none none locked now faults check db =
    let batch = stuck_batch w locked now db in
    (
      ok tt,
      reconcile_all w faults check (map (stuck_payment now) batch) (lease_batch w now batch db),
    )
