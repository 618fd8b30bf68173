-- ===== src/Worker/Refund/Pays.antt =====
-- What a round of the refund worker of order-service/internal/worker/refund_worker.go does for the
-- refunds of its batch, when nothing fails and the provider accepts them.
use microservice_architectur.Base.{
  ℕ, ◌≡◌, ◌≢◌, refl, ap, sym, ◌∙◌, false, Option, none, some, List, [], ◌∷◌, ◌==◌, find, All,
  Result, ok, healthy, arith, subst,
}
use microservice_architectur.Domain.Payment.{PaymentStatus, can_transition_payment}
use microservice_architectur.Store.{Db, PaymentRow, RefundRow, RefundStatus}
use microservice_architectur.Store.Rows.{All-imp, All-and, find-update_elsewhere, find-holds}
use microservice_architectur.Payments.{add_payment_event}
use microservice_architectur.Payments.Transition.{set_status, moved_row}
use microservice_architectur.Worker.Refund.{
  RefundWorker, DueRefund, Faults, is_pending_refund, set_succeeded, mark_succeeded, record_answer,
  refund_all,
}

-- The refund and its payment have these statuses.
abbrev Stands : RefundStatus → PaymentStatus → Db → DueRefund → Type 0
Stands s t db d =
    ((r : RefundRow) × (find (λ r. r.id == d.id) db.refunds ≡ some r) × (r.status ≡ s))
    × ((p : PaymentRow) × (find (λ p. p.id == d.payment_id) db.payments ≡ some p) × (p.status ≡ t))

-- The refund is open, and its payment has the money.
abbrev pub IsPayable : Db → DueRefund → Type 0
IsPayable db d = Stands RefundStatus.pending PaymentStatus.succeeded db d

-- The refund is done, and its payment is refunded.
abbrev pub IsPaidOut : Db → DueRefund → Type 0
IsPaidOut db d = Stands RefundStatus.succeeded PaymentStatus.refunded db d

-- The store behind a refund that went through.
abbrev paid_out : DueRefund → ℕ → PaymentRow → Db → Db
paid_out d provider_id p db =
    add_payment_event d.payment_id (some p.status) PaymentStatus.refunded
      (set_status d.payment_id PaymentStatus.refunded none (set_succeeded d.id provider_id db))

mark_succeeded-payable :
    (d : DueRefund) (provider_id : ℕ) (p : PaymentRow) (db : Db)
    → find (λ p. p.id == d.payment_id) db.payments ≡ some p
    → p.status ≡ PaymentStatus.succeeded
    → mark_succeeded healthy d provider_id db ≡ (ok tt, paid_out d provider_id p db)
unfolding mark_succeeded can_transition_payment set_succeeded
mark_succeeded-payable d provider_id p db found s = ground arith

paid_out-this :
    (d : DueRefund) (provider_id : ℕ) (p : PaymentRow) (db : Db)
    → IsPayable db d
    → IsPaidOut (paid_out d provider_id p db) d
unfolding add_payment_event set_status set_succeeded
paid_out-this d provider_id p db ((r, found, open'), (q, there, s)) =
    let mine = find-holds (λ (r : RefundRow). r.id == d.id) db.refunds r found in
    let its = find-holds (λ (p : PaymentRow). p.id == d.payment_id) db.payments q there in
    (
      (
        record r { status = RefundStatus.succeeded; provider_refund_id = some provider_id },
        find-update_elsewhere (λ r. r.id == d.id) (is_pending_refund d.id)
              (λ r. record r {
                status = RefundStatus.succeeded;
                provider_refund_id = some provider_id;
              })
              db.refunds r (λ r. refl) found
            ∙ ground arith,
        refl,
      ),
      (
        moved_row PaymentStatus.refunded none q,
        find-update_elsewhere (λ p. p.id == d.payment_id) (λ p. p.id == d.payment_id)
              (moved_row PaymentStatus.refunded none) db.payments q (λ p. refl) there
            ∙ ground arith,
        refl,
      ),
    )

-- Two refunds of different payments.
abbrev pub IsApart : DueRefund → DueRefund → Type 0
IsApart d e = (e.id ≢ d.id) × (e.payment_id ≢ d.payment_id)

abbrev pub AllApart : List DueRefund → Type 0
AllApart [] = Unit
AllApart (d ∷ ds) = All (IsApart d) ds × AllApart ds

paid_out-other :
    (s : RefundStatus) (t : PaymentStatus) (d e : DueRefund) (provider_id : ℕ) (p : PaymentRow)
    (db : Db)
    → IsApart d e
    → Stands s t db e
    → Stands s t (paid_out d provider_id p db) e
unfolding add_payment_event set_status set_succeeded
paid_out-other s t d e provider_id p db (other, another) ((r, found, rs), (q, there, qs)) =
    let mine = find-holds (λ (r : RefundRow). r.id == e.id) db.refunds r found in
    let its = find-holds (λ (p : PaymentRow). p.id == e.payment_id) db.payments q there in
    let not_d : (r.id == d.id) ≡ false = ground arith in
    let not_its : (q.id == d.payment_id) ≡ false = ground arith in
    (
      (
        r,
        find-update_elsewhere (λ r. r.id == e.id) (is_pending_refund d.id)
              (λ r. record r {
                status = RefundStatus.succeeded;
                provider_refund_id = some provider_id;
              })
              db.refunds r (λ r. refl) found
            ∙ ground arith,
        rs,
      ),
      (
        q,
        find-update_elsewhere (λ p. p.id == e.payment_id) (λ p. p.id == d.payment_id)
              (moved_row PaymentStatus.refunded none) db.payments q (λ p. refl) there
            ∙ ground arith,
        qs,
      ),
    )

-- Nothing fails when the results are recorded.
abbrev pub AreHealthy : (ℕ → Faults) → Type 0
AreHealthy faults = (id : ℕ) → (faults id).succeeded_io ≡ healthy

record_answer-payable :
    (w : RefundWorker) (f : Faults) (d : DueRefund) (provider_id : ℕ) (db : Db)
    → f.succeeded_io ≡ healthy
    → IsPayable db d
    → (p : PaymentRow) × (record_answer w f d (ok provider_id) db ≡ paid_out d provider_id p db)
unfolding record_answer
record_answer-payable w f d provider_id db fine (r, (p, found, s)) = (
  p,
  ap (λ io. (mark_succeeded io d provider_id db).1) fine
      ∙ ap (λ x. x.1) (mark_succeeded-payable d provider_id p db found s),
)

module _ {S : Type 0} (refund : ℕ → Option ℕ → ℕ → S → Result ℕ × S) where
  -- The provider accepts each refund of the list.
  abbrev pub Accepts : List DueRefund → Type 0
  Accepts ds =
      All
        (λ d.
          (s : S)
          → (provider_id : ℕ) × (s' : S) × (refund d.id d.charge_id d.amount s
              ≡ (ok provider_id, s')))
        ds

  module _ (w : RefundWorker) (faults : ℕ → Faults) (fine : AreHealthy faults) where
    -- One round of the loop.
    refund_all-round :
        (d : DueRefund) (ds : List DueRefund) (s : S) (db : Db)
        → Accepts (d ∷ ds)
        → IsPayable db d
        → (provider_id : ℕ) × (p : PaymentRow) × (s' : S) × (refund_all refund w faults
              (d ∷ ds)
              s
              db
            ≡ refund_all refund w faults ds s' (paid_out d provider_id p db))
    unfolding refund_all
    refund_all-round d ds s db accepts payable =
        let (provider_id, s', answered) = accepts.0 s in
        let (p, recorded) =
          record_answer-payable w (faults d.id) d provider_id db (fine d.id) payable in
        (provider_id, p, s', rw (answered, refund_all) (rw recorded refl))

    refund_all-other :
        (t : RefundStatus) (u : PaymentStatus) (e : DueRefund) (ds : List DueRefund) (s : S)
        (db : Db)
        → Accepts ds
        → AllApart ds
        → All (λ d. IsApart d e) ds
        → All (IsPayable db) ds
        → Stands t u db e
        → Stands t u (refund_all refund w faults ds s db).1 e
    unfolding refund_all
    refund_all-other t u e [] s db accepts apart others payable stands = stands
    refund_all-other t u e (d ∷ ds) s db accepts apart others payable stands =
        let (provider_id, p, s', same) = refund_all-round d ds s db accepts payable.0 in
        rw same (
          refund_all-other t u e ds s' (paid_out d provider_id p db) accepts.1 apart.1 others.1
            (All-imp (λ x. IsApart d x × IsPayable db x) _ ds
              (λ x h.
                paid_out-other RefundStatus.pending PaymentStatus.succeeded d x provider_id p db h.0
                  h.1)
              (All-and (IsApart d) (IsPayable db) ds apart.0 payable.1))
            (paid_out-other t u d e provider_id p db others.0 stands))

    pub refund_all-IsPaidOut :
        (ds : List DueRefund) (s : S) (db : Db)
        → Accepts ds
        → AllApart ds
        → All (IsPayable db) ds
        → All (IsPaidOut (refund_all refund w faults ds s db).1) ds
    refund_all-IsPaidOut [] s db accepts apart payable = tt
    refund_all-IsPaidOut (d ∷ ds) s db accepts apart payable =
        let (provider_id, p, s', same) = refund_all-round d ds s db accepts payable.0 in
        let later =
          All-imp (λ x. IsApart d x × IsPayable db x) _ ds
            (λ x h.
              paid_out-other RefundStatus.pending PaymentStatus.succeeded d x provider_id p db h.0
                h.1)
            (All-and (IsApart d) (IsPayable db) ds apart.0 payable.1) in
        subst (λ (o : S × Db). All (IsPaidOut o.1) (d ∷ ds)) (sym same)
          (
            refund_all-other RefundStatus.succeeded PaymentStatus.refunded d ds s'
                (paid_out d provider_id p db) accepts.1 apart.1
                (All-imp (IsApart d) (λ x. IsApart x d) ds
                  (λ x h. (λ e. h.0 (sym e), λ e. h.1 (sym e))) apart.0)
                later (paid_out-this d provider_id p db payable.0),
            refund_all-IsPaidOut ds s' (paid_out d provider_id p db) accepts.1 apart.1 later,
          )
