-- ===== src/Payments/Invariant.antt =====
-- The invariant of the store of order-service/internal/repository/payment_repo.go between two
-- transactions.
use microservice_architectur.Base.{
  ℕ, ◌≤◌, ◌<◌, ◌≡◌, ◌≢◌, refl, true, false, Option, none, some, List, [], ◌∷◌, ◌==◌, if◌then◌else◌,
  find, update, any, count, All, arith, inl, inr, subst, sym, Bool-cases, ==_iff,
}
use microservice_architectur.Domain.Order.{OrderStatus}
use microservice_architectur.Domain.Payment.{PaymentStatus, can_transition_payment}
use microservice_architectur.Domain.Payment
use microservice_architectur.Store.{Db, OrderRow, PaymentRow, PaymentEvent, RefundRow}
use microservice_architectur.Store.Rows.{
  Below, Below-update, All-imp, All-and, All-of_Below, All-update, count-update-le, find_unique,
  All-unit, any-false-count,
}
use microservice_architectur.Payments.{is_active, add_payment_event}
use microservice_architectur.Payments.Transition.{
  set_status, mark_paid, moved_row, is_pending_order,
}
use microservice_architectur.Payments.Steps.{moved, started}

-- The status that the history records for a payment: the newest event's.
abbrev pub last_status : ℕ → List PaymentEvent → Option PaymentStatus
last_status id [] = none
last_status id (e ∷ es) = if e.payment_id == id then some e.to_status else last_status id es

abbrev pub NotPending : ℕ → OrderRow → Type 0
NotPending order_id o = o.id ≡ order_id → o.status ≢ OrderStatus.pending

abbrev pub Settled : List OrderRow → PaymentRow → Type 0
Settled orders p = p.status ≡ PaymentStatus.succeeded → All (NotPending p.order_id) orders

abbrev pub Logged : List PaymentEvent → PaymentRow → Type 0
Logged events p = last_status p.id events ≡ some p.status

pub record IsValid (db : Db) : Type 0 where
  -- ids are distinct and below the sequence
  pub fresh : Below (λ p. p.id) db.next_id db.payments
  -- no order has two payments that are under way or done
  pub one_active : (order_id : ℕ) → count (is_active order_id) db.payments ≤ 1
  -- the history of a payment ends in its status
  pub logged : All (Logged db.payment_events) db.payments
  -- the order of a successful payment is not pending any more
  pub settled : All (Settled db.orders) db.payments

pub refunds-IsValid :
    (rs : List RefundRow) (db : Db) → IsValid db → IsValid (record db { refunds = rs })
refunds-IsValid rs db v = record {
  fresh = v.fresh;
  one_active = v.one_active;
  logged = v.logged;
  settled = v.settled;
}

module _ (order_id : ℕ) (key : Option ℕ) (now : ℕ) (db : Db) (v : IsValid db)
    (free : any (is_active order_id) db.payments ≡ false) where
  started-one_active : (o : ℕ) → count (is_active o) (started order_id key now db).payments ≤ 1
  unfolding add_payment_event
  started-one_active o = elim (Bool-cases (order_id == o)) [
    | inl e ↦
        let none_yet =
          subst (λ k. count (is_active k) db.payments ≡ 0) ((==_iff order_id o).0 e)
            (any-false-count (is_active order_id) db.payments free) in
        ground (arith, none_yet)
    | inr e ↦ ground (arith, v.one_active o)
  ]

  pub started-IsValid : IsValid (started order_id key now db)
  unfolding add_payment_event
  started-IsValid = record {
    fresh = (omega arith, v.fresh);
    one_active = started-one_active;
    logged = (
      ground arith,
      All-imp (λ p. (p.id < db.next_id) × Logged db.payment_events p) _ db.payments
          (λ p h. ground (arith, h))
          (All-and (λ p. p.id < db.next_id) (Logged db.payment_events) db.payments
            (All-of_Below (λ p. p.id) db.next_id db.payments v.fresh) v.logged),
    );
    settled = ((λ e. absurd (cc)), v.settled);
  }

-- A row that an allowed move makes active was active before.
moved_was_active :
    (p : PaymentRow) (to : PaymentStatus) (charge : Option ℕ) (o : ℕ)
    → can_transition_payment p.status to ≡ true
    → is_active o (moved_row to charge p) ≡ true
    → is_active o p ≡ true
unfolding can_transition_payment
moved_was_active p to charge o c a = ground arith

module _ (id : ℕ) (p : PaymentRow) (to : PaymentStatus) (charge : Option ℕ) (db : Db)
    (v : IsValid db) (found : find (λ p. p.id == id) db.payments ≡ some p)
    (can : can_transition_payment p.status to ≡ true) where
  only : All (λ x. x.id ≡ id → x ≡ p) db.payments
  only = find_unique (λ x. x.id) db.next_id id db.payments p v.fresh found

  abbrev rows : List PaymentRow
  rows = update (λ x. x.id == id) (moved_row to charge) db.payments

  rows-fresh : Below (λ p. p.id) db.next_id rows
  rows-fresh =
      Below-update (λ p. p.id) db.next_id (λ x. x.id == id) _ db.payments (λ x. refl) v.fresh

  rows-one_active : (o : ℕ) → count (is_active o) rows ≤ 1
  rows-one_active o = omega (
    arith,
    v.one_active o,
    count-update-le (is_active o) (λ x. x.id == id) (moved_row to charge) db.payments
        (All-imp (λ x. x.id ≡ id → x ≡ p) _ db.payments
          (λ x same t. moved_was_active x to charge o (
            subst (λ y. can_transition_payment y.status to ≡ true)
              (sym (same ((==_iff x.id id).0 t))) can))
          only),
  )

  abbrev events : List PaymentEvent
  events =
      record { payment_id = id; from_status = some p.status; to_status = to } ∷ db.payment_events

  rows-Logged : All (Logged events) rows
  rows-Logged =
      All-update (Logged events) (λ x. x.id == id) (moved_row to charge) db.payments
        (All-imp (Logged db.payment_events) _ db.payments
          (λ x h. ((λ t. ground arith), (λ f. ground (arith, h)))) v.logged)

  rows-Settled : to ≢ PaymentStatus.succeeded → All (Settled db.orders) rows
  rows-Settled ne =
      All-update (Settled db.orders) (λ x. x.id == id) (moved_row to charge) db.payments
        (All-imp (Settled db.orders) _ db.payments (λ x h. ((λ t e. absurd (ne e)), (λ f. h)))
          v.settled)

  abbrev paid_orders : List OrderRow
  paid_orders =
      update (is_pending_order p.order_id) (λ o. record o { status = OrderStatus.paid }) db.orders

  paid_orders-NotPending : All (NotPending p.order_id) paid_orders
  paid_orders-NotPending =
      All-update (NotPending p.order_id) (is_pending_order p.order_id) _ db.orders (
        All-imp (λ (o : OrderRow). Unit {0}) _ db.orders
          (λ o u. ((λ t same e. absurd (cc)), (λ f same e. absurd (ground arith))))
          (All-unit db.orders))

  paid_orders-keeps : (k : ℕ) → All (NotPending k) db.orders → All (NotPending k) paid_orders
  paid_orders-keeps k h =
      All-update (NotPending k) (is_pending_order p.order_id) _ db.orders
        (All-imp (NotPending k) _ db.orders (λ o n. ((λ t same e. absurd (cc)), (λ f. n))) h)

  rows-Settled_paid : All (Settled paid_orders) rows
  rows-Settled_paid =
      All-update (Settled paid_orders) (λ x. x.id == id) (moved_row to charge) db.payments
        (All-imp (λ x. (x.id ≡ id → x ≡ p) × Settled db.orders x) _ db.payments
          (λ x h. (
            (λ t e.
                subst (λ (y : PaymentRow). All (NotPending y.order_id) paid_orders)
                  (sym (h.0 ((==_iff x.id id).0 t))) paid_orders-NotPending),
            (λ f e. paid_orders-keeps x.order_id (h.1 e)),
          ))
          (All-and (λ x. x.id ≡ id → x ≡ p) (Settled db.orders) db.payments only v.settled))

  pub moved-IsValid : IsValid (moved id p to charge db)
  unfolding add_payment_event set_status mark_paid
  moved-IsValid = elim (Bool-cases (Payment.same_status to PaymentStatus.succeeded)) [
    | inl e ↦ rw e (record {
      fresh = rows-fresh;
      one_active = rows-one_active;
      logged = rows-Logged;
      settled = rows-Settled_paid;
    })
    | inr e ↦ rw e (record {
      fresh = rows-fresh;
      one_active = rows-one_active;
      logged = rows-Logged;
      settled = rows-Settled (λ s. ground arith);
    })
  ]
