-- ===== src/Worker/Reconcile/Leaves.antt =====
-- The last round of order-service/internal/worker/reconcile_worker.go for a payment.
use microservice_architectur.Base.{
  ℕ, ◌≤◌, ◌≡◌, ◌≢◌, refl, ap, ◌∙◌, true, Option, none, some, ◌==◌, find, Error, Result, ok, err,
  ◌>>=◌, ◌>>◌, attempt, Io, arith, inl, inr, ◌⊎◌, leb, Option-cases, Result-cases,
}
use microservice_architectur.Domain.Payment.{PaymentStatus, can_transition_payment}
use microservice_architectur.Store.{Db, PaymentRow}
use microservice_architectur.Store.Rows.{find-update_elsewhere, find-holds}
use microservice_architectur.Payments.Transition.{transition, transition_body, pay_order, moved_row}
use microservice_architectur.Payments.Steps.{moved-find, transition-cases}
use microservice_architectur.Provider.{
  ChargeStatus, charge_not_found, charge_declined, charge_succeeded,
}
use microservice_architectur.Worker.Reconcile.{
  ReconcileWorker, StuckPayment, Faults, is_pending_payment, manual, retry_or_manual,
  after_transition, resolve, by_answer, reconcile,
}

-- The payment needs no round any more: it is settled, or a person looks at it.
abbrev pub HasLeft : ℕ → Db → Type 0
HasLeft id db =
    (p : PaymentRow) × (find (λ p. p.id == id) db.payments ≡ some p)
    × ((p.status ≢ PaymentStatus.pending) ⊎ (p.manual_review ≡ true))

-- An error that a statement fails with.
handed_on {ℓ} :
    {A : Type ℓ} (o : Option Error) (x : Error)
    → o ≢ some Error.payment_transition
    → o ≡ some x
    → ◌≢◌ {A = Result A} (err x) (err Error.payment_transition)
handed_on o x fine e same =
    fine (e ∙ ap (λ r. elim r as (λ y. Option Error) [ ok a ↦ none | err z ↦ some z ]) same)

pay_order-fine :
    (io : Io) (to : PaymentStatus) (order_id : ℕ) (db : Db)
    → io 4 ≢ some Error.payment_transition
    → pay_order io to order_id db ≢ err Error.payment_transition
unfolding pay_order
pay_order-fine io to order_id db fine e = ground (arith, fine)

last_step-fine :
    (o : Option Error) (r : Result Db)
    → o ≢ some Error.payment_transition
    → r ≢ err Error.payment_transition
    → ◌>>=◌ {B = Unit {0} × Db} r (λ db. ◌>>◌ {A = Unit {0} × Db} (attempt o) (ok (tt, db)))
      ≢ err Error.payment_transition
last_step-fine o (ok db) fine other e = ground (arith, fine)
last_step-fine o (err x) fine other e = ground (arith, other)

transition_body-fine :
    (io : Io) (id : ℕ) (p : PaymentRow) (to : PaymentStatus) (charge : Option ℕ) (db : Db)
    → find (λ p. p.id == id) db.payments ≡ some p
    → can_transition_payment p.status to ≡ true
    → ((n : ℕ) → io n ≢ some Error.payment_transition)
    → transition_body io id to charge db ≢ err Error.payment_transition
unfolding transition_body
transition_body-fine io id p to charge db found can fine = elim (Option-cases (io 1)) [
  | inr (x, f) ↦ rw (f, transition_body) (handed_on (io 1) x (fine 1) f)
  | inl f ↦
      rw (f, transition_body)
        (rw found (
          rw can (elim (Option-cases (io 2)) [
            | inr (x, g) ↦ rw g (handed_on (io 2) x (fine 2) g)
            | inl g ↦ rw g (elim (Option-cases (io 3)) [
              | inr (x, h) ↦ rw h (handed_on (io 3) x (fine 3) h)
              | inl h ↦
                  rw h
                    (last_step-fine (io 5) _ (fine 5) (pay_order-fine io to p.order_id _ (fine 4)))
            ])
          ])))
]

transition-fine :
    (io : Io) (id : ℕ) (p : PaymentRow) (to : PaymentStatus) (charge : Option ℕ) (db : Db)
    → find (λ p. p.id == id) db.payments ≡ some p
    → can_transition_payment p.status to ≡ true
    → ((n : ℕ) → io n ≢ some Error.payment_transition)
    → (transition io id to charge db).0 ≢ err Error.payment_transition
unfolding transition
transition-fine io id p to charge db found can fine = elim (Option-cases (io 0)) [
  | inr (x, f) ↦ rw (f, transition) (handed_on (io 0) x (fine 0) f)
  | inl f ↦
      let body = transition_body-fine io id p to charge db found can fine in
      rw (f, transition)
        (elim (Result-cases (transition_body io id to charge db)) [
          | inl (x, g) ↦ λ e. body (ground (arith, g, e))
          | inr (r, g) ↦ λ e. absurd (ground (arith, g, e))
        ])
]

manual-HasLeft :
    (f : Faults) (p : StuckPayment) (row : PaymentRow) (db : Db)
    → f.update_fault ≡ none
    → find (λ x. x.id == p.id) db.payments ≡ some row
    → row.status ≡ PaymentStatus.pending
    → HasLeft p.id (manual f p db)
unfolding manual
manual-HasLeft f p row db ok_ found pending =
    let id = find-holds (λ x. x.id == p.id) db.payments row found in
    let later =
      find-update_elsewhere (λ x. x.id == p.id) (is_pending_payment p.id)
        (λ (x : PaymentRow). record x { manual_review = true }) db.payments row (λ x. refl) found in
    let here : is_pending_payment p.id row ≡ true = ground arith in
    (record row { manual_review = true }, rw ok_ (rw here at later), inr refl)

retry_or_manual-HasLeft :
    (w : ReconcileWorker) (f : Faults) (p : StuckPayment) (row : PaymentRow) (db : Db)
    → w.max_attempts ≤ p.attempts
    → f.update_fault ≡ none
    → find (λ x. x.id == p.id) db.payments ≡ some row
    → row.status ≡ PaymentStatus.pending
    → HasLeft p.id (retry_or_manual w f p db)
unfolding retry_or_manual
retry_or_manual-HasLeft w f p row db tried ok_ found pending =
    let last : leb w.max_attempts p.attempts ≡ true = ground arith in
    rw last (manual-HasLeft f p row db ok_ found pending)

after_transition-other :
    (w : ReconcileWorker) (f : Faults) (p : StuckPayment) (e : Error) (db : Db)
    → ◌≢◌ {A = Result (Unit {0})} (err e) (err Error.payment_transition)
    → after_transition w f p (err e) db ≡ retry_or_manual w f p db
unfolding after_transition
after_transition-other w f p Error.payment_transition db ne = absurd (ne refl)
after_transition-other w f p e db ne = refl

module _ (w : ReconcileWorker) (f : Faults) (p : StuckPayment) (row : PaymentRow) (db : Db)
    (tried : w.max_attempts ≤ p.attempts) (ok_ : f.update_fault ≡ none)
    (fine : (n : ℕ) → f.transition_io n ≢ some Error.payment_transition)
    (found : find (λ x. x.id == p.id) db.payments ≡ some row)
    (pending : row.status ≡ PaymentStatus.pending) where
  resolve-HasLeft :
      (to : PaymentStatus) (charge : Option ℕ)
      → to ≢ PaymentStatus.pending
      → can_transition_payment row.status to ≡ true
      → HasLeft p.id (resolve w f p to charge db)
  unfolding resolve
  resolve-HasLeft to charge settled can =
      elim (transition-cases f.transition_io p.id to charge db) [
        | inl (e, failed) ↦
            let other = transition-fine f.transition_io p.id row to charge db found can fine in
            let ne : ◌≢◌ {A = Result (Unit {0})} (err e) (err Error.payment_transition) =
              λ same. other (ap (λ r. r.0) failed ∙ same) in
            rw failed (
              rw (after_transition-other w f p e db ne)
                (retry_or_manual-HasLeft w f p row db tried ok_ found pending))
        | inr (q, done, there, can') ↦
            rw done (moved_row to charge q, moved-find p.id q to charge db there, inl settled)
      ]

  by_answer-HasLeft :
      w.expire_after ≤ p.age → (r : Result ChargeStatus) → HasLeft p.id (by_answer w f p r db)
  unfolding by_answer can_transition_payment
  by_answer-HasLeft old (err e) = retry_or_manual-HasLeft w f p row db tried ok_ found pending
  by_answer-HasLeft old (ok (charge_succeeded c)) =
      resolve-HasLeft PaymentStatus.succeeded (some c) (λ e. ground arith) (rw pending refl)
  by_answer-HasLeft old (ok charge_declined) =
      resolve-HasLeft PaymentStatus.failed none (λ e. ground arith) (rw pending refl)
  by_answer-HasLeft old (ok charge_not_found) =
      let late : leb w.expire_after p.age ≡ true = ground arith in
      rw late (resolve-HasLeft PaymentStatus.expired none (λ e. ground arith) (rw pending refl))

  -- No payment is forgotten: the worker's last round for a pending payment takes it out of the queue.
  -- Once it has been tried as often as `maxAttempts` and is at least `expireAfter` old, then whatever
  -- the provider answers, also nothing, and whatever fails in the transaction of Transition, if only
  -- the worker's own UPDATE goes through and no statement fails with Transition's own error: afterwards
  -- the payment is not pending, or it is marked for a person.
  pub reconcile-HasLeft :
      (check : ℕ → Result ChargeStatus)
      → w.expire_after ≤ p.age
      → HasLeft p.id (reconcile w f check p db)
  unfolding reconcile
  reconcile-HasLeft check old = elim (Option-cases p.key) [
    | inl missing ↦ rw missing (manual-HasLeft f p row db ok_ found pending)
    | inr (key, has) ↦ rw has (by_answer-HasLeft old (check key))
  ]
