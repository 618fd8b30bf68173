-- ===== src/Payments/Steps.antt =====
-- What the two methods of the payments' store do, on every path: their results by inversion, and
-- their failures.
use microservice_architectur.Base.{
  ℕ, suc, ◌≡◌, ◌≢◌, refl, sym, subst, Bool-cases, Bool, true, false, Option, none, some, List, [],
  ◌∷◌, ◌==◌, if◌then◌else◌, find, any, update, ◌&&◌, Error, ok, err, Io, arith, ◌⊎◌, inl, inr,
  transact-cases, ◌∙◌, ap,
}
use microservice_architectur.Domain.Order.{OrderStatus}
use microservice_architectur.Domain.Order
use microservice_architectur.Domain.Payment.{PaymentStatus, can_transition_payment}
use microservice_architectur.Domain.Payment
use microservice_architectur.Store.{Db, OrderRow, PaymentRow}
use microservice_architectur.Store.Rows.{find-update}
use microservice_architectur.Payments.{
  add_payment_event, new_payment, start_body, start, order_total, is_active, key_taken,
}
use microservice_architectur.Payments.Transition.{
  set_status, mark_paid, moved_row, transition_body, transition, is_pending_order, pay_order,
}

-- The store after a payment's row `p` has moved to `to`.
abbrev pub moved : ℕ → PaymentRow → PaymentStatus → Option ℕ → Db → Db
moved id p to charge db =
    let db1 = add_payment_event id (some p.status) to (set_status id to charge db) in
    if Payment.same_status to PaymentStatus.succeeded then mark_paid p.order_id db1 else db1

pub transition_body-ok :
    (io : Io) (id : ℕ) (to : PaymentStatus) (charge : Option ℕ) (db : Db) (r : Unit {0} × Db)
    → transition_body io id to charge db ≡ ok r
    → (p : PaymentRow) × (find (λ p. p.id == id) db.payments ≡ some p)
      × (can_transition_payment p.status to ≡ true)
      × (r.1 ≡ moved id p to charge db)
unfolding transition_body
transition_body-ok io id to charge db r e = grind arith

-- The store with a new payment in it and its first event.
abbrev pub started : ℕ → Option ℕ → ℕ → Db → Db
started order_id key now db = add_payment_event db.next_id none PaymentStatus.pending (record db {
  payments = new_payment db.next_id order_id (order_total order_id db) key now ∷ db.payments;
  next_id = suc db.next_id;
})

pub start_body-ok :
    (io : Io) (key_first : Bool) (order_id : ℕ) (key : Option ℕ) (now : ℕ) (db : Db)
    (r : (ℕ × ℕ) × Db)
    → start_body io key_first order_id key now db ≡ ok r
    → (o : OrderRow) × (find (λ o. o.id == order_id) db.orders ≡ some o)
      × (Order.same_status o.status OrderStatus.pending ≡ true)
      × (any (is_active order_id) db.payments ≡ false)
      × (key_taken key db.payments ≡ false)
      × (r ≡ ((db.next_id, order_total order_id db), started order_id key now db))
unfolding start_body
start_body-ok io key_first order_id key now db r e = grind arith

-- `Transition` either changes nothing and returns an error, or it moves the payment.
pub transition-cases :
    (io : Io) (id : ℕ) (to : PaymentStatus) (charge : Option ℕ) (db : Db)
    → ((e : Error) × (transition io id to charge db ≡ (err e, db)))
      ⊎ ((p : PaymentRow) × (transition io id to charge db ≡ (ok tt, moved id p to charge db))
          × (find (λ p. p.id == id) db.payments ≡ some p)
          × (can_transition_payment p.status to ≡ true))
unfolding transition
transition-cases io id to charge db =
    elim (transact-cases (io 0) (transition_body io id to charge) db) [
      | inl failed ↦ inl failed
      | inr (u, db', g, done) ↦
          let (p, found, can, same) = transition_body-ok io id to charge db (u, db') g in
          inr (p, done ∙ ap (λ d. (ok tt, d)) same, found, can)
    ]

abbrev pub is_paid_order : ℕ → OrderRow → Bool
is_paid_order order_id o = o.id == order_id && Order.same_status o.status OrderStatus.paid

mark_paid-any :
    (order_id : ℕ) (os : List OrderRow)
    → any (is_pending_order order_id) os ≡ true
    → any
        (is_paid_order order_id)
        (update (is_pending_order order_id) (λ o. record o { status = OrderStatus.paid }) os)
      ≡ true
mark_paid-any order_id [] h = absurd (cc)
mark_paid-any order_id (o ∷ os) h = elim (Bool-cases (is_pending_order order_id o)) [
  | inl e ↦ ground arith
  | inr e ↦ ground (arith, mark_paid-any order_id os)
]

-- What a `Transition` of payment `id` to `to` has made of the store `db`, all together.
pub record IsWhole (id : ℕ) (to : PaymentStatus) (charge : Option ℕ) (db db' : Db) : Type 0 where
  pub payment : PaymentRow
  pub found : find (λ p. p.id == id) db.payments ≡ some payment
  pub allowed : can_transition_payment payment.status to ≡ true
  -- the row has the new status, and the charge if one is given
  pub row : find (λ p. p.id == id) db'.payments ≡ some (moved_row to charge payment)
  -- its history has one more entry
  pub history :
      db'.payment_events
      ≡ record { payment_id = id; from_status = some payment.status; to_status = to }
        ∷ db.payment_events
  -- for a success, the order was waiting for the payment, and is paid now
  pub was_pending :
      to ≡ PaymentStatus.succeeded → any (is_pending_order payment.order_id) db.orders ≡ true
  pub is_paid :
      to ≡ PaymentStatus.succeeded → any (is_paid_order payment.order_id) db'.orders ≡ true
  -- otherwise the orders are as they were
  pub orders_kept : to ≢ PaymentStatus.succeeded → db'.orders ≡ db.orders

pub start-cases :
    (io : Io) (key_first : Bool) (order_id : ℕ) (key : Option ℕ) (now : ℕ) (db : Db)
    → ((e : Error) × (start io key_first order_id key now db ≡ (err e, db)))
      ⊎ ((o : OrderRow) × (start io key_first order_id key now db
            ≡ (ok (db.next_id, order_total order_id db), started order_id key now db))
          × (find (λ o. o.id == order_id) db.orders ≡ some o)
          × (Order.same_status o.status OrderStatus.pending ≡ true)
          × (any (is_active order_id) db.payments ≡ false)
          × (key_taken key db.payments ≡ false))
unfolding start
start-cases io key_first order_id key now db =
    elim (transact-cases (io 0) (start_body io key_first order_id key now) db) [
      | inl failed ↦ inl failed
      | inr (a, db', g, done) ↦
          let (o, found, pending, free, fresh, same) =
            start_body-ok io key_first order_id key now db (a, db') g in
          inr (o, done ∙ ap (λ r. (ok r.0, r.1)) same, found, pending, free, fresh)
    ]

-- The row that has moved is found in the place of the old one.
pub moved-find :
    (id : ℕ) (p : PaymentRow) (to : PaymentStatus) (charge : Option ℕ) (db : Db)
    → find (λ p. p.id == id) db.payments ≡ some p
    → find (λ p. p.id == id) (moved id p to charge db).payments ≡ some (moved_row to charge p)
unfolding add_payment_event set_status mark_paid
moved-find id p to charge db found =
    let there = find-update (λ x. x.id) id (moved_row to charge) db.payments p (λ x. refl) found in
    elim (Bool-cases (Payment.same_status to PaymentStatus.succeeded)) [
      | inl e ↦ rw e there
      | inr e ↦ rw e there
    ]

transition_body-pending :
    (io : Io) (id : ℕ) (to : PaymentStatus) (charge : Option ℕ) (db : Db) (r : Unit {0} × Db)
    → transition_body io id to charge db ≡ ok r
    → (p : PaymentRow) → find (λ p. p.id == id) db.payments ≡ some p
    → to ≡ PaymentStatus.succeeded
    → any (is_pending_order p.order_id) db.orders ≡ true
unfolding transition_body pay_order set_status add_payment_event
transition_body-pending io id to charge db r e p found same =
    let e' = rw (found, same) at e in grind arith

other_status :
    (to : PaymentStatus)
    → to ≢ PaymentStatus.succeeded
    → Payment.same_status to PaymentStatus.succeeded ≡ false
other_status PaymentStatus.pending h = refl
other_status PaymentStatus.succeeded h = absurd (h refl)
other_status PaymentStatus.failed h = refl
other_status PaymentStatus.expired h = refl
other_status PaymentStatus.refunded h = refl
other_status (PaymentStatus.other n) h = ground arith

moved-IsWhole :
    (id : ℕ) (p : PaymentRow) (to : PaymentStatus) (charge : Option ℕ) (db : Db)
    → find (λ p. p.id == id) db.payments ≡ some p
    → can_transition_payment p.status to ≡ true
    → (to ≡ PaymentStatus.succeeded → any (is_pending_order p.order_id) db.orders ≡ true)
    → IsWhole id to charge db (moved id p to charge db)
unfolding add_payment_event set_status mark_paid
moved-IsWhole id p to charge db found can pending = record {
  payment = p;
  found = found;
  allowed = can;
  row = moved-find id p to charge db found;
  history = ground arith;
  was_pending = pending;
  is_paid = λ e. ground (arith, mark_paid-any p.order_id db.orders (pending e));
  orders_kept = λ another. rw (other_status to another) refl;
}

-- Whatever statement fails, `Transition` either changes nothing and returns an error, or it returns
-- none and all of its parts have happened together: the payment exists, the diagram allows the move,
-- its row and its history say so, and for a success its order was pending and is paid now; for any
-- other status the orders are as before.
pub transition-IsWhole :
    (io : Io) (id : ℕ) (to : PaymentStatus) (charge : Option ℕ) (db : Db)
    → ((e : Error) × (transition io id to charge db ≡ (err e, db)))
      ⊎ ((db' : Db) × (transition io id to charge db ≡ (ok tt, db')) × IsWhole id to charge db db')
unfolding transition
transition-IsWhole io id to charge db =
    elim (transact-cases (io 0) (transition_body io id to charge) db) [
      | inl failed ↦ inl failed
      | inr (u, db', g, done) ↦
          let (p, found, can, same) = transition_body-ok io id to charge db (u, db') g in
          inr (
            db',
            done,
            subst (IsWhole id to charge db) (sym same) (
                moved-IsWhole id p to charge db found can
                  (transition_body-pending io id to charge db (u, db') g p found)),
          )
    ]
