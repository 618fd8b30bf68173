-- ===== src/System/Owed/Moved.antt =====
-- A move of a payment, and of its order with it, in the store of
-- order-service/internal/repository/payment_repo.go.
use microservice_architectur.Base.{
  ℕ, ◌<◌, ◌≡◌, ◌≢◌, refl, true, Option, some, List, ◌==◌, find, update, All, arith, ==_iff, ==_refl,
  ◌∙◌, Bool-cases, inl, inr, ap,
}
use microservice_architectur.Domain.Order.{OrderStatus}
use microservice_architectur.Domain.Payment.{PaymentStatus, can_transition_payment, same_status}
use microservice_architectur.Store.{Db, OrderRow, PaymentRow, RefundRow}
use microservice_architectur.Store.Rows.{
  Below-update, All-imp, All-and, All-find, All-update, find_unique,
}
use microservice_architectur.Store.Keys.{count_one}
use microservice_architectur.Payments.{add_payment_event, is_active}
use microservice_architectur.Payments.Transition.{
  set_status, mark_paid, moved_row, is_pending_order,
}
use microservice_architectur.Payments.Steps.{moved}
use microservice_architectur.Payments.Change.{move}
use microservice_architectur.Payments.Kept.{Change-IsValid}
use microservice_architectur.System.Owed.{IsOwed, HasStatus, Waits, Owed, OwedFor, Backs, Backed}

never_to_pending :
    (s t : PaymentStatus) → can_transition_payment s t ≡ true → t ≢ PaymentStatus.pending
unfolding can_transition_payment
never_to_pending s t can e = ground arith

succeeds_from_pending :
    (s t : PaymentStatus)
    → can_transition_payment s t ≡ true
    → same_status t PaymentStatus.succeeded ≡ true
    → s ≡ PaymentStatus.pending
unfolding can_transition_payment
succeeds_from_pending s t can e = ground arith

abbrev to_paid : ℕ → List OrderRow → List OrderRow
to_paid id os = update (is_pending_order id) (λ o. record o { status = OrderStatus.paid }) os

-- A cancelled order stays so.
to_paid-Backs :
    (id : ℕ) (os : List OrderRow) (r : RefundRow) (p : PaymentRow)
    → Backs os r p
    → Backs (to_paid id os) r p
to_paid-Backs id os r p b e = (
  (b e).0,
  All-update (HasStatus OrderStatus.cancelled p.order_id) (is_pending_order id)
      (λ o. record o { status = OrderStatus.paid }) os
      (All-imp (HasStatus OrderStatus.cancelled p.order_id) _ os
        (λ o h. (λ t same. absurd (ground (arith, h same)), λ f. h)) (b e).1),
)

-- No order becomes cancelled.
to_paid-Owed :
    (id : ℕ) (os : List OrderRow) (rs : List RefundRow) (p : PaymentRow)
    → Owed os rs p
    → Owed (to_paid id os) rs p
to_paid-Owed id os rs p w done =
    All-update (OwedFor rs p) (is_pending_order id) (λ o. record o { status = OrderStatus.paid }) os
      (All-imp (OwedFor rs p) _ os (λ o h. (λ t same off. absurd (cc), λ f. h)) (w done))

-- The order of the payment is not cancelled when it is paid.
to_paid-not_cancelled :
    (id : ℕ) (os : List OrderRow) (rs : List RefundRow) (p : PaymentRow)
    → p.order_id ≡ id
    → All (HasStatus OrderStatus.pending id) os
    → Owed (to_paid id os) rs p
to_paid-not_cancelled id os rs p mine h done =
    All-update (OwedFor rs p) (is_pending_order id) (λ o. record o { status = OrderStatus.paid }) os
      (All-imp (HasStatus OrderStatus.pending id) _ os
        (λ o w. (λ t same off. absurd (cc), λ f same off. absurd (ground (arith, w (same ∙ mine)))))
        h)

-- The other orders are left alone.
to_paid-Waits :
    (id : ℕ) (os : List OrderRow) (p : PaymentRow)
    → p.order_id ≢ id
    → Waits os p
    → Waits (to_paid id os) p
to_paid-Waits id os p other w e =
    All-update (HasStatus OrderStatus.pending p.order_id) (is_pending_order id)
      (λ o. record o { status = OrderStatus.paid }) os
      (All-imp (HasStatus OrderStatus.pending p.order_id) _ os
        (λ o h. (λ t same. absurd (ground arith), λ f. h)) (w e))

module _ (id : ℕ) (p : PaymentRow) (to : PaymentStatus) (charge : Option ℕ) (db : Db)
    (found : find (λ p. p.id == id) db.payments ≡ some p)
    (can : can_transition_payment p.status to ≡ true) (v : IsOwed db) where
  abbrev rows : List PaymentRow
  rows = update (λ p. p.id == id) (moved_row to charge) db.payments

  rows_refer : All (λ p. p.order_id < db.next_id) rows
  rows_refer =
      All-update (λ p. p.order_id < db.next_id) (λ p. p.id == id) (moved_row to charge) db.payments
        (All-imp (λ p. p.order_id < db.next_id) _ db.payments (λ p h. (λ t. h, λ f. h))
          v.payments_refer)

  rows-Backed : All (Backed db.orders rows db.next_id) db.refunds
  rows-Backed =
      All-imp (Backed db.orders db.payments db.next_id) _ db.refunds
        (λ r h. (
          h.0,
          All-update (Backs db.orders r) (λ p. p.id == id) (moved_row to charge) db.payments
              (All-imp (Backs db.orders r) _ db.payments (λ p b. (λ t. b, λ f. b)) h.1),
        ))
        v.backed

  rows-Waits : All (Waits db.orders) rows
  rows-Waits =
      All-update (Waits db.orders) (λ p. p.id == id) (moved_row to charge) db.payments
        (All-imp (Waits db.orders) _ db.payments
          (λ x h. (λ t e. absurd (never_to_pending p.status to can e), λ f. h)) v.waits)

  rows-Owed : (to ≢ PaymentStatus.succeeded) → All (Owed db.orders db.refunds) rows
  rows-Owed other =
      All-update (Owed db.orders db.refunds) (λ p. p.id == id) (moved_row to charge) db.payments
        (All-imp (Owed db.orders db.refunds) _ db.payments
          (λ x h. (λ t e. absurd (other e), λ f. h)) v.owed)

  abbrev paid_orders : List OrderRow
  paid_orders = to_paid p.order_id db.orders

  was_pending : same_status to PaymentStatus.succeeded ≡ true → p.status ≡ PaymentStatus.pending
  was_pending done = succeeds_from_pending p.status to can done

  -- No other payment of the order is under way.
  others_elsewhere :
      same_status to PaymentStatus.succeeded ≡ true
      → All (λ x. is_active p.order_id x ≡ true → x.id ≡ id) db.payments
  others_elsewhere done =
      let s = was_pending done in
      count_one (λ x. x.id) (is_active p.order_id) id db.payments p (v.valid.one_active p.order_id)
        found (ground (arith, ==_refl p.order_id))

  paid-Waits : same_status to PaymentStatus.succeeded ≡ true → All (Waits paid_orders) rows
  paid-Waits done =
      All-update (Waits paid_orders) (λ p. p.id == id) (moved_row to charge) db.payments
        (All-imp (λ x. (is_active p.order_id x ≡ true → x.id ≡ id) × Waits db.orders x) _
          db.payments
          (λ x h. (
            λ t e. absurd (never_to_pending p.status to can e),
            λ f e.
                to_paid-Waits p.order_id db.orders x
                  (λ same. absurd (ground (arith, h.0, e, same, f))) h.1 e,
          ))
          (All-and (λ x. is_active p.order_id x ≡ true → x.id ≡ id) (Waits db.orders) db.payments
            (others_elsewhere done) v.waits))

  paid-Owed : same_status to PaymentStatus.succeeded ≡ true → All (Owed paid_orders db.refunds) rows
  paid-Owed done =
      let pending =
        All-find (Waits db.orders) (λ x. x.id == id) db.payments p v.waits found
          (was_pending done) in
      let only = find_unique (λ x. x.id) db.next_id id db.payments p v.valid.fresh found in
      All-update (Owed paid_orders db.refunds) (λ p. p.id == id) (moved_row to charge) db.payments
        (All-imp (λ x. (x.id ≡ id → x ≡ p) × Owed db.orders db.refunds x) _ db.payments
          (λ x h. (
            λ t.
                to_paid-not_cancelled p.order_id db.orders db.refunds (moved_row to charge x)
                  (ap (λ (y : PaymentRow). y.order_id) (h.0 ((==_iff x.id id).0 t))) pending,
            λ f. to_paid-Owed p.order_id db.orders db.refunds x h.1,
          ))
          (All-and (λ x. x.id ≡ id → x ≡ p) (Owed db.orders db.refunds) db.payments only v.owed))

  pub moved-IsOwed : IsOwed (moved id p to charge db)
  unfolding add_payment_event set_status mark_paid
  moved-IsOwed =
      let valid =
        Change-IsValid db (moved id p to charge db) (move id p to charge found can refl) v.valid in
      elim (Bool-cases (same_status to PaymentStatus.succeeded)) [
        | inl e ↦
            let valid' = rw e at valid in
            rw e (record {
              valid = valid';
              orders_keyed =
                  Below-update (λ o. o.id) db.next_id (is_pending_order p.order_id)
                    (λ o. record o { status = OrderStatus.paid }) db.orders (λ o. refl)
                    v.orders_keyed;
              payments_refer = rows_refer;
              waits = paid-Waits e;
              owed = paid-Owed e;
              backed =
                  All-imp (Backed db.orders rows db.next_id) _ db.refunds
                    (λ r h. (
                      h.0,
                      All-imp (Backs db.orders r) _ rows
                          (λ x b. to_paid-Backs p.order_id db.orders r x b) h.1,
                    ))
                    rows-Backed;
              one_refund = v.one_refund;
            })
        | inr e ↦
            let valid' = rw e at valid in
            rw e (record {
              valid = valid';
              orders_keyed = v.orders_keyed;
              payments_refer = rows_refer;
              waits = rows-Waits;
              owed = rows-Owed (λ s. absurd (ground arith));
              backed = rows-Backed;
              one_refund = v.one_refund;
            })
      ]
