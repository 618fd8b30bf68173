-- ===== src/Worker/Refund.antt =====
-- order-service/internal/worker/refund_worker.go: paying refunds out.
--
-- The provider is a parameter: a state of its own and `refund`, which is asked with the number of the
-- refund (the code's key is "refund-" and that number), the charge and the amount.
pub mod Keeps
pub mod Pays
pub mod Settles
use microservice_architectur.Base.{
  ℕ, ◌+◌, Bool, true, false, not, ◌&&◌, Option, none, some, List, [], ◌∷◌, ◌==◌, leb, if◌then◌else◌,
  find, oldest_first, take, select, update, any, map, Error, Result, ok, err, ◌>>=◌, ◌>>◌, Io,
  attempt, reject_if, or_fail, transact,
}
use microservice_architectur.Domain.Payment.{PaymentStatus, can_transition_payment}
use microservice_architectur.Store.{Db, PaymentRow, RefundRow, RefundStatus}
use microservice_architectur.Payments.{add_payment_event, no_rows}
use microservice_architectur.Payments.Transition.{set_status}
use microservice_architectur.Worker.Backoff.{backoff}

-- The durations are in nanoseconds, as Go's.
pub record RefundWorker : Type 0 where
  pub lease : ℕ
  pub retry_base : ℕ
  pub retry_cap : ℕ
  pub max_attempts : ℕ
  pub batch : ℕ

-- NewRefundWorker without options.
unfoldable pub new_refund_worker : RefundWorker
new_refund_worker = record {
  lease = 30000000000;
  retry_base = 2000000000;
  retry_cap = 60000000000;
  max_attempts = 8;
  batch = 10;
}

pub record DueRefund : Type 0 where
  pub id : ℕ
  pub payment_id : ℕ
  pub amount : ℕ
  pub attempts : ℕ
  pub charge_id : Option ℕ

abbrev pub is_pending : RefundStatus → Bool
is_pending RefundStatus.pending = true
is_pending _ = false

abbrev pub is_pending_refund : ℕ → RefundRow → Bool
is_pending_refund id r = r.id == id && is_pending r.status

-- UPDATE refunds SET status = 'succeeded' ... WHERE id = $1 AND status = 'pending'
unfoldable pub set_succeeded : ℕ → ℕ → Db → Db
set_succeeded id provider_id db = record db {
  refunds =
      update (is_pending_refund id)
        (λ r. record r { status = RefundStatus.succeeded; provider_refund_id = some provider_id })
        db.refunds;
}

-- The transaction of markSucceeded, its commit included.
unfoldable pub succeeded_body : Io → DueRefund → ℕ → Db → Result (Unit {0} × Db)
unfolding set_succeeded set_status add_payment_event
succeeded_body io d provider_id db = do
  attempt (io 1)
  attempt (io 2)
  p ← or_fail (find (λ (p : PaymentRow). p.id == d.payment_id) db.payments) no_rows
  reject_if (not (can_transition_payment p.status PaymentStatus.refunded)) Error.payment_transition
  attempt (io 3)
  attempt (io 4)
  attempt (io 5)
  ok (
    tt,
    add_payment_event d.payment_id (some p.status) PaymentStatus.refunded
        (set_status d.payment_id PaymentStatus.refunded none (set_succeeded d.id provider_id db)),
  )

-- markSucceeded
unfoldable pub mark_succeeded : Io → DueRefund → ℕ → Db → Result (Unit {0}) × Db
unfolding succeeded_body
mark_succeeded io d provider_id db = transact (io 0) (succeeded_body io d provider_id) db

-- markFailed: its one UPDATE may fail.
unfoldable pub mark_failed :
    RefundWorker → Option Error → ℕ → DueRefund → Db → Result (Unit {0}) × Db
mark_failed w (some e) now d db = (err e, db)
mark_failed w none now d db =
    if leb w.max_attempts d.attempts
    then (
      ok tt,
      record db {
        refunds =
            update (is_pending_refund d.id) (λ r. record r { status = RefundStatus.manual_review })
              db.refunds;
      },
    )
    else (
      ok tt,
      record db {
        refunds =
            update (is_pending_refund d.id)
              (λ r. record r {
                next_attempt_at = now + backoff w.retry_base w.retry_cap d.attempts;
              })
              db.refunds;
      },
    )

-- The WHERE of the lease; `locked` are the rows that another worker holds (SKIP LOCKED).
abbrev pub is_due : (ℕ → Bool) → ℕ → RefundRow → Bool
is_due locked now r = is_pending r.status && leb r.next_attempt_at now && not (locked r.id)

unfoldable pub due_batch : RefundWorker → (ℕ → Bool) → ℕ → Db → List RefundRow
due_batch w locked now db = take w.batch (oldest_first (select (is_due locked now) db.refunds) [])

unfoldable pub lease_refunds : RefundWorker → ℕ → List RefundRow → Db → Db
lease_refunds w now batch db = record db {
  refunds =
      update (λ r. any (λ (q : RefundRow). q.id == r.id) batch)
        (λ r. record r { attempts = r.attempts + 1; next_attempt_at = now + w.lease }) db.refunds;
}

-- A row that RETURNING gives back, with its payment's charge; a refund has a payment (foreign key).
unfoldable pub due_refund : Db → RefundRow → DueRefund
due_refund db r = record {
  id = r.id;
  payment_id = r.payment_id;
  amount = r.amount;
  attempts = r.attempts + 1;
  charge_id = elim (find (λ (p : PaymentRow). p.id == r.payment_id) db.payments) [
    | none ↦ none
    | some p ↦ p.provider_payment_id
  ];
}

-- What happens to the statements that record one refund's result, and when they are made.
pub record Faults : Type 0 where
  pub succeeded_io : Io
  pub failed_fault : Option Error
  pub now : ℕ

-- The record of the provider's answer; an error of it is only logged.
unfoldable pub record_answer : RefundWorker → Faults → DueRefund → Result ℕ → Db → Db
unfolding mark_succeeded mark_failed
record_answer w f d (ok provider_id) db = (mark_succeeded f.succeeded_io d provider_id db).1
record_answer w f d (err e) db = (mark_failed w f.failed_fault f.now d db).1

module _ {ℓ} {S : Type ℓ} (refund : ℕ → Option ℕ → ℕ → S → Result ℕ × S) where
  -- The loop over the batch.
  unfoldable pub refund_all : RefundWorker → (ℕ → Faults) → List DueRefund → S → Db → S × Db
  unfolding record_answer
  refund_all w faults [] s db = (s, db)
  refund_all w faults (d ∷ ds) s db =
      let (r, s') = refund d.id d.charge_id d.amount s in
      refund_all w faults ds s' (record_answer w (faults d.id) d r db)

  -- ProcessDue; `query` fails the leasing statement, `reading` the rows that it returns.
  unfoldable pub process_due :
      RefundWorker
      → Option Error
      → Option Error
      → (ℕ → Bool)
      → ℕ
      → (ℕ → Faults)
      → S
      → Db
      → Result (Unit {0}) × (S × Db)
  unfolding due_batch lease_refunds due_refund refund_all
  process_due w (some e) reading locked now faults s db = (err e, (s, db))
  process_due w none (some e) locked now faults s db =
      (err e, (s, lease_refunds w now (due_batch w locked now db) db))
  process_due w none none locked now faults s db =
      let batch = due_batch w locked now db in
      let leased = lease_refunds w now batch db in
      (ok tt, refund_all w faults (map (due_refund leased) batch) s leased)
