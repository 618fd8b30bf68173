-- ===== src/Reconciliation/Job/After.antt =====
-- What a repair of order-service/internal/reconciliation/job.go leaves behind, and how it is classified.
use microservice_architectur.Base.{
  ℕ, ◌≡◌, ◌≢◌, refl, ◌∙◌, ap, true, Option, none, some, ◌==◌, find, any, healthy, Error, ok, arith,
  inl, inr, Bool-cases, Option-cases, ==_refl,
}
use microservice_architectur.Domain.Payment.{PaymentStatus, can_transition_payment}
use microservice_architectur.Domain.Payment
use microservice_architectur.Store.{Db, PaymentRow, RefundRow, RefundStatus}
use microservice_architectur.Store.Rows.{find-update_elsewhere}
use microservice_architectur.Payments.{add_payment_event}
use microservice_architectur.Payments.Transition.{
  transition, set_status, mark_paid, pay_order, transition_body, is_pending_order,
}
use microservice_architectur.Payments.Steps.{moved, transition-cases}
use microservice_architectur.Reconciliation.Classify.{
  Kind, Action, Ours, Theirs, RefundState, classify,
}
use microservice_architectur.Reconciliation.Ledgers.{ours_of, refund_of, refund_state}
use microservice_architectur.Reconciliation.Fix.{confirm_refund, is_open_refund}

pub moved-refunds :
    (id : ℕ) (p : PaymentRow) (to : PaymentStatus) (charge : Option ℕ) (db : Db)
    → (moved id p to charge db).refunds ≡ db.refunds
unfolding add_payment_event set_status mark_paid
moved-refunds id p to charge db =
    elim (Bool-cases (Payment.same_status to PaymentStatus.succeeded)) [
      | inl e ↦ rw e refl
      | inr e ↦ rw e refl
    ]

-- A transition that succeeds has moved the row that is there.
pub transition-ok :
    (io : ℕ → Option Error) (id : ℕ) (p : PaymentRow) (to : PaymentStatus) (charge : Option ℕ)
    (db db' : Db)
    → find (λ p. p.id == id) db.payments ≡ some p
    → transition io id to charge db ≡ (ok tt, db')
    → db' ≡ moved id p to charge db
transition-ok io id p to charge db db' found e = elim (transition-cases io id to charge db) [
  | inl (x, failed) ↦ absurd (ground arith)
  | inr (q, done, there, can) ↦
      let same : q ≡ p = cc in
      let now : db' ≡ moved id q to charge db = cc in now ∙ ap (λ r. moved id r to charge db) same
]

pub succeeded-matched :
    (o o' : Ours) (t : Theirs)
    → (classify (some o) (some t)).action ≡ Action.fix_payment_succeeded
    → o'.status ≡ PaymentStatus.succeeded
    → o'.amount ≡ o.amount
    → (classify (some o') (some t)).kind ≡ Kind.matched
unfolding classify
succeeded-matched o o' t e s a = ground arith

pub failed-matched :
    (o o' : Ours) (t : Theirs)
    → (classify (some o) (some t)).action ≡ Action.fix_payment_failed
    → o'.status ≡ PaymentStatus.failed
    → (classify (some o') (some t)).kind ≡ Kind.matched
unfolding classify
failed-matched o o' t e s = ground arith

pub refunded-matched :
    (o o' : Ours) (t : Theirs)
    → (classify (some o) (some t)).action ≡ Action.fix_refund_succeeded
    → o'.status ≡ PaymentStatus.refunded
    → o'.amount ≡ o.amount
    → o'.refund_status ≡ RefundState.succeeded
    → (classify (some o') (some t)).kind ≡ Kind.matched
unfolding classify
refunded-matched o o' t e s a r = ground arith

-- A refund that is not done is the one that the UPDATE reaches.
is_open_refund-true :
    (r : RefundRow) → refund_state r.status ≢ RefundState.succeeded → is_open_refund r.id r ≡ true
is_open_refund-true r todo = ground (arith, ==_refl r.id)

refund-read :
    (key : ℕ) (p : PaymentRow) (db : Db) (r : RefundRow)
    → refund_of p.id db ≡ some r
    → ((ours_of key p db).refund_id ≡ r.id)
      × ((ours_of key p db).refund_status ≡ refund_state r.status)
unfolding ours_of
refund-read key p db r e = (ground (arith, e), ground (arith, e))

refund-there :
    (key : ℕ) (p : PaymentRow) (db : Db)
    → (ours_of key p db).refund_id ≢ 0
    → (r : RefundRow) × (refund_of p.id db ≡ some r)
unfolding ours_of
refund-there key p db there = elim (Option-cases (refund_of p.id db)) [
  | inl missing ↦ absurd (ground arith)
  | inr (r, e) ↦ (r, e)
]

confirmed-find :
    (id refund_id : ℕ) (db : Db) (r : RefundRow)
    → refund_of id db ≡ some r
    → is_open_refund refund_id r ≡ true
    → refund_of id (confirm_refund none refund_id db).1
      ≡ some (record r { status = RefundStatus.succeeded })
unfolding confirm_refund
confirmed-find id refund_id db r e is_open =
    find-update_elsewhere (λ (x : RefundRow). x.payment_id == id) (is_open_refund refund_id)
      (λ x. record x { status = RefundStatus.succeeded }) db.refunds r (λ x. refl) e
    ∙ rw is_open refl

pub confirmed-refund :
    (key : ℕ) (p p' : PaymentRow) (db db' : Db)
    → p'.id ≡ p.id
    → (ours_of key p db).refund_status ≢ RefundState.succeeded
    → (ours_of key p db).refund_id ≢ 0
    → db'.refunds ≡ db.refunds
    → (ours_of key p' (confirm_refund none (ours_of key p db).refund_id db').1).refund_status
      ≡ RefundState.succeeded
confirmed-refund key p p' db db' same todo there rs =
    let (r, e) = refund-there key p db there in
    let (id, state) = refund-read key p db r e in
    let is_open = is_open_refund-true r (λ s. todo (state ∙ s)) in
    let found : refund_of p'.id db' ≡ some r = rw (same, rs) e in
    rw id (
      (refund-read key p' (confirm_refund none r.id db').1
        (record r { status = RefundStatus.succeeded })
        (confirmed-find p'.id r.id db' r found is_open)).1)

pub transition-healthy :
    (id : ℕ) (p : PaymentRow) (to : PaymentStatus) (charge : Option ℕ) (db : Db)
    → find (λ p. p.id == id) db.payments ≡ some p
    → can_transition_payment p.status to ≡ true
    → (to ≡ PaymentStatus.succeeded → any (is_pending_order p.order_id) db.orders ≡ true)
    → transition healthy id to charge db ≡ (ok tt, moved id p to charge db)
unfolding transition transition_body pay_order add_payment_event set_status
transition-healthy id p to charge db found can order =
    elim (Bool-cases (Payment.same_status to PaymentStatus.succeeded)) [
      | inl e ↦ let there = order (ground arith) in rw found (rw can (rw e (rw there refl)))
      | inr e ↦ rw found (rw can (rw e refl))
    ]
