-- ===== src/Worker/Reconcile/Keeps.antt =====
-- The reconcile worker of order-service/internal/worker/reconcile_worker.go and the payments' invariant.
use microservice_architectur.Base.{
  ℕ, refl, Bool, Option, none, some, List, [], ◌∷◌, map, Error, Result, ok, err, arith, inl, inr,
  Option-cases,
}
use microservice_architectur.Domain.Payment.{PaymentStatus}
use microservice_architectur.Store.{Db, PaymentRow}
use microservice_architectur.Payments.Change.{Changes, here, next, note_payments}
use microservice_architectur.Payments.Invariant.{IsValid}
use microservice_architectur.Payments.Kept.{Changes-IsValid}
use microservice_architectur.Payments.Operations.{transition-Changes}
use microservice_architectur.Provider.{
  ChargeStatus, charge_not_found, charge_declined, charge_succeeded,
}
use microservice_architectur.Worker.Backoff.{backoff}
use microservice_architectur.Worker.Reconcile.{
  ReconcileWorker, StuckPayment, Faults, manual, schedule, retry_or_manual, after_transition,
  resolve, by_answer, reconcile, reconcile_all, lease_batch, stuck_batch, stuck_payment,
  process_due,
}

pub manual-Changes :
    {db0 : Db} (f : Faults) (p : StuckPayment) (db : Db)
    → Changes db0 db
    → Changes db0 (manual f p db)
unfolding manual
manual-Changes f p db v = elim (Option-cases f.update_fault) [
  | inl e ↦ rw e (next v (note_payments _ _ (λ p. (refl, refl, refl, refl, refl)) refl))
  | inr (x, e) ↦ rw e v
]

pub schedule-Changes :
    {db0 : Db} (f : Faults) (p : StuckPayment) (after : ℕ) (db : Db)
    → Changes db0 db
    → Changes db0 (schedule f p after db)
unfolding schedule
schedule-Changes f p after db v = elim (Option-cases f.update_fault) [
  | inl e ↦ rw e (next v (note_payments _ _ (λ p. (refl, refl, refl, refl, refl)) refl))
  | inr (x, e) ↦ rw e v
]

retry_or_manual-Changes :
    {db0 : Db} (w : ReconcileWorker) (f : Faults) (p : StuckPayment) (db : Db)
    → Changes db0 db
    → Changes db0 (retry_or_manual w f p db)
unfolding retry_or_manual
retry_or_manual-Changes w f p db v =
    let m = manual-Changes f p db v in
    let s = schedule-Changes f p (backoff w.retry_base w.retry_cap p.attempts) db v in ground arith

after_transition-Changes :
    {db0 : Db} (w : ReconcileWorker) (f : Faults) (p : StuckPayment) (r : Result (Unit {0}))
    (db : Db)
    → Changes db0 db
    → Changes db0 (after_transition w f p r db)
unfolding after_transition
after_transition-Changes w f p r db v = let m = retry_or_manual-Changes w f p db v in ground arith

resolve-Changes :
    {db0 : Db} (w : ReconcileWorker) (f : Faults) (p : StuckPayment) (to : PaymentStatus)
    (charge : Option ℕ) (db : Db)
    → Changes db0 db
    → Changes db0 (resolve w f p to charge db)
unfolding resolve
resolve-Changes w f p to charge db v =
    after_transition-Changes w f p _ _ (transition-Changes _ db v f.transition_io p.id to charge)

by_answer-Changes :
    {db0 : Db} (w : ReconcileWorker) (f : Faults) (p : StuckPayment) (r : Result ChargeStatus)
    (db : Db)
    → Changes db0 db
    → Changes db0 (by_answer w f p r db)
unfolding by_answer
by_answer-Changes w f p (err e) db v = retry_or_manual-Changes w f p db v
by_answer-Changes w f p (ok (charge_succeeded c)) db v =
    resolve-Changes w f p PaymentStatus.succeeded (some c) db v
by_answer-Changes w f p (ok charge_declined) db v =
    resolve-Changes w f p PaymentStatus.failed none db v
by_answer-Changes w f p (ok charge_not_found) db v =
    let r = resolve-Changes w f p PaymentStatus.expired none db v in
    let s = schedule-Changes f p (backoff w.retry_base w.retry_cap p.attempts) db v in ground arith

reconcile-Changes :
    {db0 : Db} (w : ReconcileWorker) (f : Faults) (check : ℕ → Result ChargeStatus)
    (p : StuckPayment) (db : Db)
    → Changes db0 db
    → Changes db0 (reconcile w f check p db)
unfolding reconcile
reconcile-Changes w f check p db v = elim (Option-cases p.key) [
  | inl e ↦ rw e (manual-Changes f p db v)
  | inr (key, e) ↦ rw e (by_answer-Changes w f p (check key) db v)
]

reconcile_all-Changes :
    {db0 : Db} (w : ReconcileWorker) (faults : ℕ → Faults) (check : ℕ → Result ChargeStatus)
    (ps : List StuckPayment) (db : Db)
    → Changes db0 db
    → Changes db0 (reconcile_all w faults check ps db)
unfolding reconcile_all
reconcile_all-Changes w faults check [] db v = v
reconcile_all-Changes w faults check (p ∷ ps) db v =
    reconcile_all-Changes w faults check ps _ (reconcile-Changes w (faults p.id) check p db v)

pub lease_batch-Changes :
    {db0 : Db} (w : ReconcileWorker) (now : ℕ) (batch : List PaymentRow) (db : Db)
    → Changes db0 db
    → Changes db0 (lease_batch w now batch db)
unfolding lease_batch
lease_batch-Changes w now batch db v =
    next v (note_payments _ _ (λ p. (refl, refl, refl, refl, refl)) refl)

pub process_due-Changes :
    {db0 : Db} (w : ReconcileWorker) (query reading : Option Error) (locked : ℕ → Bool) (now : ℕ)
    (faults : ℕ → Faults) (check : ℕ → Result ChargeStatus) (db : Db)
    → Changes db0 db
    → Changes db0 (process_due w query reading locked now faults check db).1
unfolding process_due
process_due-Changes w (some e) reading locked now faults check db v = v
process_due-Changes w none (some e) locked now faults check db v = lease_batch-Changes w now _ db v
process_due-Changes w none none locked now faults check db v =
    let batch = stuck_batch w locked now db in
    reconcile_all-Changes w faults check (map (stuck_payment now) batch) _
      (lease_batch-Changes w now batch db v)

-- A round of the reconcile worker keeps the payments' invariant, with any batch, any answers of the
-- provider and any failures: no order gets a second payment that is pending or succeeded, every
-- history ends in its payment's status, and no order of a succeeded payment is pending.
pub process_due-IsValid :
    (w : ReconcileWorker) (query reading : Option Error) (locked : ℕ → Bool) (now : ℕ)
    (faults : ℕ → Faults) (check : ℕ → Result ChargeStatus) (db : Db)
    → IsValid db
    → IsValid (process_due w query reading locked now faults check db).1
process_due-IsValid w query reading locked now faults check db v =
    Changes-IsValid (process_due-Changes w query reading locked now faults check db here) v
