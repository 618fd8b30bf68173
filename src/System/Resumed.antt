-- ===== src/System/Resumed.antt =====
-- The payment behind an idempotency key of order-service/internal/repository/payment_repo.go, after
-- anything that requests and workers do.
use microservice_architectur.Base.{
  ℕ, ◌≡◌, refl, ◌∙◌, ap, subst, Bool, true, false, Option, none, some, List, ◌==◌, if◌then◌else◌,
  find, any, update, Error, ok, Io, arith, Bool-cases, inl, inr,
}
use microservice_architectur.Domain.Payment.{PaymentStatus}
use microservice_architectur.Domain.Payment
use microservice_architectur.Store.{Db, PaymentRow}
use microservice_architectur.Store.Rows.{find-update_elsewhere, find-any}
use microservice_architectur.Payments.{
  has_key, key_taken, by_key, info, PaymentInfo, start_or_resume, order_total, add_payment_event,
  new_payment,
}
use microservice_architectur.Payments.Transition.{set_status, mark_paid, moved_row}
use microservice_architectur.Payments.Steps.{moved, started}
use microservice_architectur.Payments.Resume.{start_or_resume-found}
use microservice_architectur.Payments.Change.{Change, begin, move, note_payments, note_refunds}
use microservice_architectur.Orders.Cancel.{cancel_body, set_cancelled, give_back}
use microservice_architectur.System.{Reach}
use microservice_architectur.System.Cancelled.{cancel_body-found, refund_order-IsBeside}
use microservice_architectur.System.Committed.{Reach-Effects}
use microservice_architectur.System.Effect.{Effect, Effects-keep, changed, created, called_off}

-- The key stands for the payment of an order, with its id and its amount.
abbrev pub StandsFor : ℕ → PaymentRow → Db → Type 0
StandsFor key p db =
    (r : PaymentRow) × (find (has_key key) db.payments ≡ some r)
    × (r.id ≡ p.id)
    × (r.order_id ≡ p.order_id)
    × (r.amount ≡ p.amount)

has_key-some :
    (key : ℕ) (k : Option ℕ) (id order_id amount now : ℕ)
    → has_key key (new_payment id order_id amount k now) ≡ true
    → k ≡ some key
has_key-some key none id order_id amount now e = absurd (cc)
has_key-some key (some k) id order_id amount now e = ground arith

module _ (key : ℕ) (p : PaymentRow) where
  updated-StandsFor :
      (db db' : Db) (is : PaymentRow → Bool) (f : PaymentRow → PaymentRow)
      → ((x : PaymentRow)
          → ((f x).id ≡ x.id)
            × ((f x).order_id ≡ x.order_id)
            × ((f x).amount ≡ x.amount)
            × (has_key key (f x) ≡ has_key key x))
      → db'.payments ≡ update is f db.payments
      → StandsFor key p db
      → StandsFor key p db'
  updated-StandsFor db db' is f kept same (r, found, i, o, a) =
      let there : find (has_key key) db'.payments ≡ some (if is r then f r else r) =
        ap (find (has_key key)) same
        ∙ find-update_elsewhere (has_key key) is f db.payments r (λ x. (kept x).3) found in
      (
        (if is r then f r else r),
        there,
        ground (arith, kept r),
        ground (arith, kept r),
        ground (arith, kept r),
      )

  begun-StandsFor :
      (order_id : ℕ) (k : Option ℕ) (now : ℕ) (db : Db)
      → key_taken k db.payments ≡ false
      → StandsFor key p db
      → StandsFor key p (started order_id k now db)
  unfolding add_payment_event
  begun-StandsFor order_id k now db fresh (r, found, i, o, a) =
      elim (Bool-cases
        (has_key key (new_payment db.next_id order_id (order_total order_id db) k now))) [
          | inl mine ↦
              let same : k ≡ some key =
                has_key-some key k db.next_id order_id (order_total order_id db) now mine in
              let taken : any (has_key key) db.payments ≡ false =
                subst (λ n. key_taken n db.payments ≡ false) same fresh in
              let there = find-any (has_key key) db.payments r found in absurd (cc)
          | inr other ↦ (r, ground arith, i, o, a)
        ]

  moved-StandsFor :
      (id : ℕ) (q : PaymentRow) (to : PaymentStatus) (charge : Option ℕ) (db : Db)
      → StandsFor key p db
      → StandsFor key p (moved id q to charge db)
  unfolding add_payment_event set_status mark_paid
  moved-StandsFor id q to charge db v =
      updated-StandsFor db (moved id q to charge db) (λ x. x.id == id) (moved_row to charge)
        (λ x. (refl, refl, refl, refl))
        (elim (Bool-cases (Payment.same_status to PaymentStatus.succeeded)) [
          | inl e ↦ rw e refl
          | inr e ↦ rw e refl
        ])
        v

  Change-StandsFor : (db db' : Db) → Change db db' → StandsFor key p db → StandsFor key p db'
  Change-StandsFor db db' (begin order_id k now o found pending free fresh same) v =
      rw same (begun-StandsFor order_id k now db fresh v)
  Change-StandsFor db db' (move id q to charge found can same) v =
      rw same (moved-StandsFor id q to charge db v)
  Change-StandsFor db db' (note_payments q f kept same) v =
      updated-StandsFor db db' q f
        (λ x.
          let (i, o, s, a, k) = kept x in
          (i, o, a, ap (λ (n : Option ℕ). elim n [ none ↦ false | some j ↦ j == key ]) k))
        (ap (λ (d : Db). d.payments) same) v
  Change-StandsFor db db' (note_refunds q f kept same) v = rw same v

  cancel_body-payments :
      (io : Io) (id now : ℕ) (db : Db) (r : (ℕ × List ℕ) × Db)
      → cancel_body io id now db ≡ ok r
      → r.1.payments ≡ db.payments
  unfolding cancel_body set_cancelled give_back
  cancel_body-payments io id now db r e =
      let (o, found, can, free, db1, refunded, same) = cancel_body-found io id now db r e in
      ap (λ (x : (ℕ × List ℕ) × Db). x.1.payments) same
      ∙ (refund_order-IsBeside (io 4) o.status id now (set_cancelled id db) db1
          refunded).same_payments

  Effect-StandsFor : (db db' : Db) → Effect db db' → StandsFor key p db → StandsFor key p db'
  Effect-StandsFor db db' (changed c) v = Change-StandsFor db db' c v
  Effect-StandsFor db db' (created m) v = rw (m.same_payments) v
  Effect-StandsFor db db' (called_off io id now answer e) v =
      rw (cancel_body-payments io id now db (answer, db') e) v

by_key-row :
    (key : ℕ) (db : Db) (q : PaymentInfo)
    → by_key none key db ≡ ok (some q)
    → (r : PaymentRow) × (find (has_key key) db.payments ≡ some r) × (info r ≡ q)
unfolding by_key
by_key-row key db q e = ground arith

row-by_key :
    (key : ℕ) (db : Db) (r : PaymentRow)
    → find (has_key key) db.payments ≡ some r
    → by_key none key db ≡ ok (some (info r))
unfolding by_key
row-by_key key db r e = ground arith

-- A key stands for one payment for good. If `StartOrResume` has returned a payment for a key, then
-- after whatever requests and workers do, in any order, with any failures and any answers of the
-- provider, a call of it with that key whose look-up goes through returns a payment with the same id
-- and amount (its status may have moved), and writes nothing. The order that the later call names
-- plays no part, so a key that is used again for another order gets the first order's payment.
pub Reach-start_or_resume :
    (first : Option Error) (io : Io) (last : Option Error) (key_first : Bool) (order_id key now : ℕ)
    (db db' later : Db) (q : PaymentInfo)
    → start_or_resume first io last key_first order_id (some key) now db ≡ (ok q, db')
    → Reach db' later
    → (io' : Io) (last' : Option Error) (key_first' : Bool) (order_id' now' : ℕ)
    → (q' : PaymentInfo) × (start_or_resume none io' last' key_first' order_id'
          (some key)
          now'
          later
        ≡ (ok q', later))
      × (q'.id ≡ q.id)
      × (q'.amount ≡ q.amount)
unfolding start_or_resume
Reach-start_or_resume first io last key_first order_id key now db db' later q h reach io' last'
      key_first' o' n' =
    let (p, found, same) =
      by_key-row key db' q
        (start_or_resume-found first io last key_first order_id key now db db' q h) in
    let (r, there, i, o, a) =
      Effects-keep (StandsFor key p) (Effect-StandsFor key p) (Reach-Effects reach)
        (p, found, refl, refl, refl) in
    (
      info r,
      rw (row-by_key key later r there, start_or_resume),
      i ∙ ap (λ (x : PaymentInfo). x.id) same,
      a ∙ ap (λ (x : PaymentInfo). x.amount) same,
    )
