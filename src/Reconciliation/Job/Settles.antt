-- ===== src/Reconciliation/Job/Settles.antt =====
-- The repairs of order-service/internal/reconciliation/job.go and the comparison that asked for them.
use microservice_architectur.Base.{
  ℕ, ◌≡◌, ◌≢◌, refl, true, false, none, some, ◌==◌, find, any, healthy, ok, arith, inl, inr, ◌⊎◌,
}
use microservice_architectur.Domain.Payment.{PaymentStatus, can_transition_payment}
use microservice_architectur.Domain.Payment
use microservice_architectur.Store.{Db, PaymentRow}
use microservice_architectur.Payments.Transition.{moved_row, is_pending_order}
use microservice_architectur.Payments.Steps.{moved-find, moved}
use microservice_architectur.Reconciliation.Classify.{Kind, Action, Theirs, RefundState, classify}
use microservice_architectur.Reconciliation.Ledgers.{ours_of}
use microservice_architectur.Reconciliation.Fix.{KeyFaults, fix, confirm_refund, after_refunded}
use microservice_architectur.Reconciliation.Job.After.{
  moved-refunds, transition-ok, transition-healthy, succeeded-matched, failed-matched,
  refunded-matched, confirmed-refund,
}

-- The payment stands in the store, and with it both sides agree.
abbrev pub IsSettled : ℕ → ℕ → Theirs → Db → Type 0
IsSettled id key t db =
    (p : PaymentRow) × (find (λ p. p.id == id) db.payments ≡ some p)
    × ((classify (some (ours_of key p db)) (some t)).kind ≡ Kind.matched)

module _ (f : KeyFaults) (key : ℕ) (p : PaymentRow) (t : Theirs) (db db' : Db)
    (found : find (λ x. x.id == p.id) db.payments ≡ some p) where
  succeeded-IsSettled :
      (classify (some (ours_of key p db)) (some t)).action ≡ Action.fix_payment_succeeded
      → fix f Action.fix_payment_succeeded (ours_of key p db) t db ≡ (ok tt, db')
      → IsSettled p.id key t db'
  unfolding fix ours_of
  succeeded-IsSettled a e =
      let same =
        transition-ok f.transition_io p.id p PaymentStatus.succeeded (some t.charge_id) db db' found
          e in
      (
        moved_row PaymentStatus.succeeded (some t.charge_id) p,
        rw same (moved-find p.id p PaymentStatus.succeeded (some t.charge_id) db found),
        succeeded-matched (ours_of key p db)
            (ours_of key (moved_row PaymentStatus.succeeded (some t.charge_id) p) db') t a refl
            refl,
      )

  failed-IsSettled :
      (classify (some (ours_of key p db)) (some t)).action ≡ Action.fix_payment_failed
      → fix f Action.fix_payment_failed (ours_of key p db) t db ≡ (ok tt, db')
      → IsSettled p.id key t db'
  unfolding fix ours_of
  failed-IsSettled a e =
      let same = transition-ok f.transition_io p.id p PaymentStatus.failed none db db' found e in
      (
        moved_row PaymentStatus.failed none p,
        rw same (moved-find p.id p PaymentStatus.failed none db found),
        failed-matched (ours_of key p db) (ours_of key (moved_row PaymentStatus.failed none p) db')
            t a refl,
      )

-- Every statement goes through.
abbrev pub no_faults : KeyFaults
no_faults = record { transition_io = healthy; update_fault = none; record_fault = none }

-- What makes a repair possible: a payment that is to succeed has an order that waits for it.
abbrev pub OrderWaits : Action → PaymentRow → Db → Type 0
OrderWaits a p db =
    a ≡ Action.fix_payment_succeeded → any (is_pending_order p.order_id) db.orders ≡ true

-- The repair is made, and it settles the matter.
abbrev pub Repaired : ℕ → PaymentRow → Theirs → Db → Action → Type 0
Repaired key p t db a =
    (db' : Db) × (fix no_faults a (ours_of key p db) t db ≡ (ok tt, db')) × IsSettled p.id key t db'

module _ (key : ℕ) (p : PaymentRow) (t : Theirs) (db : Db)
    (found : find (λ x. x.id == p.id) db.payments ≡ some p) where
  succeeded-Repaired :
      (classify (some (ours_of key p db)) (some t)).action ≡ Action.fix_payment_succeeded
      → any (is_pending_order p.order_id) db.orders ≡ true
      → Repaired key p t db Action.fix_payment_succeeded
  unfolding fix ours_of classify can_transition_payment
  succeeded-Repaired a waits =
      let e =
        transition-healthy p.id p PaymentStatus.succeeded (some t.charge_id) db found (ground arith)
          (λ s. waits) in
      (_, e, succeeded-IsSettled no_faults key p t db _ found a e)

  failed-Repaired :
      (classify (some (ours_of key p db)) (some t)).action ≡ Action.fix_payment_failed
      → Repaired key p t db Action.fix_payment_failed
  unfolding fix ours_of classify can_transition_payment
  failed-Repaired a =
      let e =
        transition-healthy p.id p PaymentStatus.failed none db found (ground arith)
          (λ s. absurd (ground arith)) in
      (_, e, failed-IsSettled no_faults key p t db _ found a e)

  refund_facts :
      (classify (some (ours_of key p db)) (some t)).action ≡ Action.fix_refund_succeeded
      → ((ours_of key p db).refund_status ≢ RefundState.succeeded)
        × ((ours_of key p db).refund_id ≢ 0)
        × ((p.status ≡ PaymentStatus.succeeded)
            ⊎ ((p.status ≡ PaymentStatus.refunded)
                × (Payment.same_status p.status PaymentStatus.succeeded ≡ false)))
  unfolding classify ours_of
  refund_facts a = ground arith

  refunded-Repaired :
      (classify (some (ours_of key p db)) (some t)).action ≡ Action.fix_refund_succeeded
      → Repaired key p t db Action.fix_refund_succeeded
  unfolding fix ours_of confirm_refund after_refunded can_transition_payment
  refunded-Repaired a =
      let (todo, there, status) = refund_facts a in
      let o = ours_of key p db in
      elim status [
        | inr (refunded, other) ↦
            let db' = (confirm_refund none o.refund_id db).1 in
            (
              db',
              rw other refl,
              (
                p,
                found,
                refunded-matched o (ours_of key p db') t a refunded refl
                    (confirmed-refund key p p db db refl todo there refl),
              ),
            )
        | inl succeeded ↦
            let p' = moved_row PaymentStatus.refunded none p in
            let db1 = moved p.id p PaymentStatus.refunded none db in
            let db' = (confirm_refund none o.refund_id db1).1 in
            let e =
              transition-healthy p.id p PaymentStatus.refunded none db found (rw succeeded refl)
                (λ s. absurd (ground arith)) in
            (
              db',
              rw e (rw succeeded refl),
              (
                p',
                moved-find p.id p PaymentStatus.refunded none db found,
                refunded-matched o (ours_of key p' db') t a refl refl (
                    confirmed-refund key p p' db db1 refl todo there
                      (moved-refunds p.id p PaymentStatus.refunded none db)),
              ),
            )
      ]

  -- Each repair that the comparison of a payment with the provider's record asks for can be made, and
  -- it settles the matter: if no statement fails, and the order waits for the payment where that is to
  -- succeed, `fix` returns without an error, and the comparison of what the store then says with the
  -- same record is "matched". The payment is the one that the store finds by its id.
  pub fix-IsSettled :
      (a : Action)
      → (classify (some (ours_of key p db)) (some t)).action ≡ a
      → a ≢ Action.no_action
      → a ≢ Action.manual
      → OrderWaits a p db
      → Repaired key p t db a
  fix-IsSettled Action.fix_payment_succeeded asked n m waits = succeeded-Repaired asked (waits refl)
  fix-IsSettled Action.fix_payment_failed asked n m waits = failed-Repaired asked
  fix-IsSettled Action.fix_refund_succeeded asked n m waits = refunded-Repaired asked
  fix-IsSettled Action.no_action asked n m waits = absurd (n refl)
  fix-IsSettled Action.manual asked n m waits = absurd (m refl)
