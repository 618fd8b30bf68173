-- ===== src/Worker/Refund/Keeps.antt =====
-- The refund worker of order-service/internal/worker/refund_worker.go and the payments' invariant.
use microservice_architectur.Base.{
  ℕ, ◌≡◌, refl, ap, ◌∙◌, Bool, true, Option, none, some, List, [], ◌∷◌, ◌==◌, find, map, Error,
  Result, ok, err, Io, arith, inl, inr, ◌⊎◌, transact-cases, Bool-cases, leb, any, ◌+◌,
}
use microservice_architectur.Domain.Payment.{PaymentStatus, can_transition_payment}
use microservice_architectur.Store.{Db, PaymentRow, RefundRow, RefundStatus}
use microservice_architectur.Worker.Backoff.{backoff}
use microservice_architectur.Payments.Steps.{moved}
use microservice_architectur.Payments.Change.{Changes, here, next, move, note_refunds}
use microservice_architectur.Payments.Invariant.{IsValid}
use microservice_architectur.Payments.Kept.{Changes-IsValid}
use microservice_architectur.Worker.Refund.{
  RefundWorker, DueRefund, Faults, is_pending_refund, set_succeeded, succeeded_body, mark_succeeded,
  mark_failed, record_answer, lease_refunds, due_batch, due_refund, refund_all, process_due,
}

succeeded_body-ok :
    (io : Io) (d : DueRefund) (provider_id : ℕ) (db : Db) (r : Unit {0} × Db)
    → succeeded_body io d provider_id db ≡ ok r
    → (p : PaymentRow) × (find (λ p. p.id == d.payment_id) db.payments ≡ some p)
      × (can_transition_payment p.status PaymentStatus.refunded ≡ true)
      × (r.1 ≡ moved d.payment_id p PaymentStatus.refunded none (set_succeeded d.id provider_id db))
unfolding succeeded_body set_succeeded
succeeded_body-ok io d provider_id db r e = grind arith

-- Whatever statement fails, markSucceeded either changes nothing and returns an error, or the refund
-- is recorded and its payment, which the diagram allows to be refunded, moves with its history.
mark_succeeded-cases :
    (io : Io) (d : DueRefund) (provider_id : ℕ) (db : Db)
    → ((e : Error) × (mark_succeeded io d provider_id db ≡ (err e, db)))
      ⊎ ((p : PaymentRow) × (mark_succeeded io d provider_id db ≡ (
        ok tt,
        moved d.payment_id p PaymentStatus.refunded none (set_succeeded d.id provider_id db),
      ))
          × (find (λ p. p.id == d.payment_id) db.payments ≡ some p)
          × (can_transition_payment p.status PaymentStatus.refunded ≡ true))
unfolding mark_succeeded
mark_succeeded-cases io d provider_id db =
    elim (transact-cases (io 0) (succeeded_body io d provider_id) db) [
      | inl failed ↦ inl failed
      | inr (a, s, body, done) ↦
          let (p, found, can, same) = succeeded_body-ok io d provider_id db (a, s) body in
          inr (p, done ∙ ap (λ s. (ok tt, s)) same, found, can)
    ]

set_succeeded-Changes :
    {db0 : Db} (id provider_id : ℕ) (db : Db)
    → Changes db0 db
    → Changes db0 (set_succeeded id provider_id db)
unfolding set_succeeded
set_succeeded-Changes id provider_id db v = next v (
    note_refunds (is_pending_refund id)
      (λ r. record r { status = RefundStatus.succeeded; provider_refund_id = some provider_id })
      (λ r. (refl, refl)) refl)

pub mark_succeeded-Changes :
    {db0 : Db} (io : Io) (d : DueRefund) (provider_id : ℕ) (db : Db)
    → Changes db0 db
    → Changes db0 (mark_succeeded io d provider_id db).1
unfolding set_succeeded
mark_succeeded-Changes io d provider_id db v = elim (mark_succeeded-cases io d provider_id db) [
  | inl (e, failed) ↦ rw failed v
  | inr (p, done, found, can) ↦ rw done (
      next (set_succeeded-Changes d.id provider_id db v)
        (move d.payment_id p PaymentStatus.refunded none found can refl))
]

pub mark_failed-Changes :
    {db0 : Db} (w : RefundWorker) (fault : Option Error) (now : ℕ) (d : DueRefund) (db : Db)
    → Changes db0 db
    → Changes db0 (mark_failed w fault now d db).1
unfolding mark_failed
mark_failed-Changes w (some e) now d db v = v
mark_failed-Changes w none now d db v = elim (Bool-cases (leb w.max_attempts d.attempts)) [
  | inl e ↦ rw e (
      next v (
        note_refunds (is_pending_refund d.id)
          (λ r. record r { status = RefundStatus.manual_review }) (λ r. (refl, refl)) refl))
  | inr e ↦ rw e (
      next v (
        note_refunds (is_pending_refund d.id)
          (λ r. record r { next_attempt_at = now + backoff w.retry_base w.retry_cap d.attempts })
          (λ r. (refl, refl)) refl))
]

record_answer-Changes :
    {db0 : Db} (w : RefundWorker) (f : Faults) (d : DueRefund) (r : Result ℕ) (db : Db)
    → Changes db0 db
    → Changes db0 (record_answer w f d r db)
unfolding record_answer
record_answer-Changes w f d (ok provider_id) db v =
    mark_succeeded-Changes f.succeeded_io d provider_id db v
record_answer-Changes w f d (err e) db v = mark_failed-Changes w f.failed_fault f.now d db v

pub lease_refunds-Changes :
    {db0 : Db} (w : RefundWorker) (now : ℕ) (batch : List RefundRow) (db : Db)
    → Changes db0 db
    → Changes db0 (lease_refunds w now batch db)
unfolding lease_refunds
lease_refunds-Changes w now batch db v = next v (
    note_refunds (λ r. any (λ (q : RefundRow). q.id == r.id) batch)
      (λ r. record r { attempts = r.attempts + 1; next_attempt_at = now + w.lease })
      (λ r. (refl, refl)) refl)

module _ {ℓ} {S : Type ℓ} (refund : ℕ → Option ℕ → ℕ → S → Result ℕ × S) where
  refund_all-Changes :
      {db0 : Db} (w : RefundWorker) (faults : ℕ → Faults) (ds : List DueRefund) (s : S) (db : Db)
      → Changes db0 db
      → Changes db0 (refund_all refund w faults ds s db).1
  unfolding refund_all
  refund_all-Changes w faults [] s db v = v
  refund_all-Changes w faults (d ∷ ds) s db v =
      refund_all-Changes w faults ds _ _ (record_answer-Changes w (faults d.id) d _ db v)

  pub process_due-Changes :
      {db0 : Db} (w : RefundWorker) (query reading : Option Error) (locked : ℕ → Bool) (now : ℕ)
      (faults : ℕ → Faults) (s : S) (db : Db)
      → Changes db0 db
      → Changes db0 (process_due refund w query reading locked now faults s db).1.1
  unfolding process_due
  process_due-Changes w (some e) reading locked now faults s db v = v
  process_due-Changes w none (some e) locked now faults s db v = lease_refunds-Changes w now _ db v
  process_due-Changes w none none locked now faults s db v =
      let batch = due_batch w locked now db in
      let leased = lease_refunds w now batch db in
      refund_all-Changes w faults (map (due_refund leased) batch) s leased
        (lease_refunds-Changes w now batch db v)

  -- A round of the refund worker keeps the payments' invariant, for any provider and any failures.
  pub process_due-keeps :
      (w : RefundWorker) (query reading : Option Error) (locked : ℕ → Bool) (now : ℕ)
      (faults : ℕ → Faults) (s : S) (db : Db)
      → IsValid db
      → IsValid (process_due refund w query reading locked now faults s db).1.1
  process_due-keeps w query reading locked now faults s db v =
      Changes-IsValid (process_due-Changes w query reading locked now faults s db here) v
