-- ===== src/System/Owed/PaidBack.antt =====
-- The whole transaction of `CancelOrder`, order-service/internal/repository/order.go, and the money.
use microservice_architectur.Base.{
  ℕ, ◌<◌, ◌≡◌, refl, ap, true, false, some, List, [], ◌∷◌, ◌==◌, find, select, any, All, arith, inl,
  inr, Io, ok,
}
use microservice_architectur.Domain.Order.{OrderStatus, can_transition}
use microservice_architectur.Domain.Payment.{PaymentStatus}
use microservice_architectur.Store.{Db, OrderRow, PaymentRow}
use microservice_architectur.Store.Rows.{Below-weaken, Below-update, All-imp, All-and, All-of_Below}
use microservice_architectur.Store.Keys.{All-unique}
use microservice_architectur.Orders.Cancel.{
  cancel_body, give_back, in_progress, insert_refunds, is_paid_for, set_cancelled,
}
use microservice_architectur.System.Freed.{to_cancelled}
use microservice_architectur.System.Cancelled.{
  IsBeside, cancel_body-found, refund_order-cases, refund_order-IsBeside,
}
use microservice_architectur.System.Owed.{IsOwed, Backs, Backed, is_refund_of}
use microservice_architectur.Store.Batches.{All-select, All-selected, select-true}
use microservice_architectur.System.Owed.Refunds.{
  new_refund, Agrees, insert_refunds-keep, insert_refunds-any, insert_refunds-one,
  insert_refunds-present,
}
use microservice_architectur.System.Owed.CalledOff.{
  paid_if_settled, still_cancelled, now_cancelled, off-Waits, off-Settled, off-Owed,
}

All-swap {ℓ κ} :
    {A : Type ℓ} {B : Type κ} (P : A → B → Type 0) (xs : List A) (ys : List B)
    → All (λ x. All (P x) ys) xs
    → All (λ y. All (λ x. P x y) xs) ys
All-swap P xs [] h = tt
All-swap P xs (y ∷ ys) h = (
  All-imp (λ x. All (P x) (y ∷ ys)) _ xs (λ x a. a.0) h,
  All-swap P xs ys (All-imp (λ x. All (P x) (y ∷ ys)) _ xs (λ x a. a.1) h),
)

module _ (id : ℕ) (o : OrderRow) (now : ℕ) (db : Db)
    (found : find (λ o. o.id == id) db.orders ≡ some o)
    (can : can_transition o.status OrderStatus.cancelled ≡ true)
    (free : o.status ≡ OrderStatus.pending → in_progress id db ≡ false) (v : IsOwed db) where
  abbrev paid_rows : List PaymentRow
  paid_rows = select (is_paid_for id) db.payments

  old_agree : All (λ p. All (Agrees p) db.refunds) db.payments
  old_agree =
      All-swap (λ r p. Agrees p r) db.refunds db.payments
        (All-imp (Backed db.orders db.payments db.next_id) _ db.refunds
          (λ r h. All-imp (Backs db.orders r) _ db.payments (λ p b e. (b e).0) h.1) v.backed)

  unique : All (λ p. All (λ (q : PaymentRow). q.id ≡ p.id → q ≡ p) db.payments) db.payments
  unique = All-unique (λ p. p.id) db.next_id db.payments v.valid.fresh

  -- The refunds of a paid order.
  each_refunded :
      All
        (λ x.
          is_paid_for id x ≡ true
          → any (is_refund_of x) (insert_refunds now paid_rows (set_cancelled id db)).refunds
            ≡ true)
        db.payments
  unfolding set_cancelled
  each_refunded = All-selected _ (is_paid_for id) db.payments (
      insert_refunds-present now paid_rows (set_cancelled id db)
        (All-select _ (is_paid_for id) db.payments old_agree)
        (All-select _ (is_paid_for id) db.payments (
          All-imp (λ p. All (λ (q : PaymentRow). q.id ≡ p.id → q ≡ p) db.payments) _ db.payments
            (λ p u. All-select _ (is_paid_for id) db.payments u) unique)))

  old-Backed : All (Backed (to_cancelled id db.orders) db.payments db.next_id) db.refunds
  old-Backed =
      All-imp (Backed db.orders db.payments db.next_id) _ db.refunds
        (λ r h. (
          h.0,
          All-imp (Backs db.orders r) _ db.payments
              (λ p b e. ((b e).0, still_cancelled id o db found can free v p.order_id (b e).1)) h.1,
        ))
        v.backed

  new-Backed :
      All
        (λ p.
          (n : ℕ) → Backed (to_cancelled id db.orders) db.payments db.next_id (new_refund n now p))
        paid_rows
  new-Backed =
      All-imp
        (λ p.
          (is_paid_for id p ≡ true)
          × ((p.id < db.next_id) × All (λ (q : PaymentRow). q.id ≡ p.id → q ≡ p) db.payments))
        _ paid_rows
        (λ p h n. (
          h.1.0,
          All-imp (λ (q : PaymentRow). q.id ≡ p.id → q ≡ p) _ db.payments
              (λ q one e.
                let same = one e in
                let mine : q.order_id ≡ id = ground (arith, same, h.0) in
                (
                  ap (λ (y : PaymentRow). y.amount) same,
                  rw mine (now_cancelled id o db found can free v),
                ))
              h.1.1,
        ))
        (All-and (λ p. is_paid_for id p ≡ true)
          (λ p. (p.id < db.next_id) × All (λ (q : PaymentRow). q.id ≡ p.id → q ≡ p) db.payments)
          paid_rows (select-true (is_paid_for id) db.payments)
          (All-select _ (is_paid_for id) db.payments (
            All-and (λ p. p.id < db.next_id)
              (λ p. All (λ (q : PaymentRow). q.id ≡ p.id → q ≡ p) db.payments) db.payments
              (All-of_Below (λ p. p.id) db.next_id db.payments v.valid.fresh) unique)))

  -- What is behind the refunds, `ps` being the payments that they are for.
  settled-IsOwed :
      (ps : List PaymentRow) (db1 : Db)
      → db1 ≡ insert_refunds now ps (set_cancelled id db)
      → IsBeside (set_cancelled id db) db1
      → All
          (λ p.
            (n : ℕ)
            → Backed (to_cancelled id db.orders) db.payments db.next_id (new_refund n now p))
          ps
      → All
          (λ x.
            is_paid_for id x ≡ true
            → any (is_refund_of x) (insert_refunds now ps (set_cancelled id db)).refunds ≡ true)
          db.payments
      → IsOwed (give_back id db1)
  unfolding set_cancelled give_back
  settled-IsOwed ps db1 same b new each = record {
    valid = record {
      fresh =
          rw (b.same_payments)
            (Below-weaken (λ p. p.id) db.next_id db1.next_id db.payments b.grows v.valid.fresh);
      one_active = λ k. rw (b.same_payments) (v.valid.one_active k);
      logged = rw (b.same_payments, b.same_events) v.valid.logged;
      settled = rw (b.same_payments, b.same_orders) (off-Settled id o db found can free v);
    };
    orders_keyed = rw (b.same_orders) (
        Below-weaken (λ x. x.id) db.next_id db1.next_id (to_cancelled id db.orders) b.grows
          (Below-update (λ x. x.id) db.next_id (λ x. x.id == id)
            (λ x. record x { status = OrderStatus.cancelled }) db.orders (λ x. refl)
            v.orders_keyed));
    payments_refer = rw (b.same_payments) (
        All-imp (λ p. p.order_id < db.next_id) (λ p. p.order_id < db1.next_id) db.payments
          (λ p h. omega (arith, b.grows)) v.payments_refer);
    waits = rw (b.same_payments, b.same_orders) (off-Waits id o db found can free v);
    owed =
        rw (b.same_payments, b.same_orders, ap (λ (d : Db). d.refunds) same)
          (off-Owed id o db found can free v _
            (λ q h. insert_refunds-any q now ps (set_cancelled id db) h) each);
    backed =
        rw (b.same_payments, b.same_orders, ap (λ (d : Db). d.refunds) same)
          (All-imp (Backed (to_cancelled id db.orders) db.payments db.next_id) _ _
            (λ r h. (omega (arith, h.0, b.grows), h.1))
            (insert_refunds-keep (Backed (to_cancelled id db.orders) db.payments db.next_id) now ps
              (set_cancelled id db) old-Backed new));
    one_refund = λ k.
        rw (ap (λ (d : Db). d.refunds) same)
          (insert_refunds-one k now ps (set_cancelled id db) (v.one_refund k));
  }

pub cancel_body-IsOwed :
    (io : Io) (id now : ℕ) (db : Db) (r : (ℕ × List ℕ) × Db)
    → cancel_body io id now db ≡ ok r
    → IsOwed db
    → IsOwed r.1
unfolding set_cancelled insert_refunds
cancel_body-IsOwed io id now db r e v =
    let (o, found, can, free, db1, refunded, same) = cancel_body-found io id now db r e in
    let b = refund_order-IsBeside (io 4) o.status id now (set_cancelled id db) db1 refunded in
    rw (ap (λ r. r.1) same)
      (elim (refund_order-cases (io 4) o.status id now (set_cancelled id db) db1 refunded) [
        | inl (unpaid, done) ↦ settled-IsOwed id o now db found can free v [] db1 done b tt (
            All-imp
              (λ x.
                x.status ≡ PaymentStatus.succeeded → x.order_id ≡ id → o.status ≡ OrderStatus.paid)
              _ db.payments (λ x s is. absurd (ground (arith, s, is)))
              (paid_if_settled id o db found can free v))
        | inr (paid, done) ↦
            settled-IsOwed id o now db found can free v (paid_rows id o now db found can free v) db1
              done b (new-Backed id o now db found can free v)
              (each_refunded id o now db found can free v)
      ])
