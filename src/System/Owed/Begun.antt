-- ===== src/System/Owed/Begun.antt =====
-- The start of a payment, and the bookkeeping of payments and refunds, in the store of
-- order-service/internal/repository.
use microservice_architectur.Base.{
  ℕ, suc, ◌<◌, ◌≡◌, refl, Bool, true, false, Option, some, ◌==◌, find, update, any, All, arith,
}
use microservice_architectur.Domain.Order.{OrderStatus}
use microservice_architectur.Domain.Order
use microservice_architectur.Store.{Db, OrderRow, PaymentRow, RefundRow}
use microservice_architectur.Store.Rows.{
  Below-weaken, All-imp, All-of_Below, All-find, All-update, find-holds, find_unique,
  count-update-le,
}
use microservice_architectur.Store.Keys.{any-update}
use microservice_architectur.Payments.{add_payment_event, is_active, key_taken}
use microservice_architectur.Payments.Steps.{started}
use microservice_architectur.Payments.Change.{begin, note_payments, note_refunds}
use microservice_architectur.Payments.Kept.{Change-IsValid}
use microservice_architectur.System.Owed.{
  IsOwed, HasStatus, Waits, Owed, OwedFor, Backs, Backed, is_refund_of,
}

is_pending_status :
    (s : OrderStatus) → Order.same_status s OrderStatus.pending ≡ true → s ≡ OrderStatus.pending
is_pending_status s e = ground arith

module _ (order_id : ℕ) (key : Option ℕ) (now : ℕ) (o : OrderRow) (db : Db)
    (found : find (λ o. o.id == order_id) db.orders ≡ some o)
    (pending : Order.same_status o.status OrderStatus.pending ≡ true)
    (free : any (is_active order_id) db.payments ≡ false)
    (fresh : key_taken key db.payments ≡ false) (v : IsOwed db) where
  order_made : order_id < db.next_id
  order_made =
      let below =
        All-find (λ (x : OrderRow). x.id < db.next_id) (λ x. x.id == order_id) db.orders o
          (All-of_Below (λ x. x.id) db.next_id db.orders v.orders_keyed) found in
      let same = find-holds (λ (x : OrderRow). x.id == order_id) db.orders o found in ground arith

  order_pending : All (HasStatus OrderStatus.pending order_id) db.orders
  order_pending =
      All-imp (λ x. x.id ≡ order_id → x ≡ o) _ db.orders
        (λ x only same. rw (only same) (is_pending_status o.status pending))
        (find_unique (λ x. x.id) db.next_id order_id db.orders o v.orders_keyed found)

  pub begun-IsOwed : IsOwed (started order_id key now db)
  unfolding add_payment_event
  begun-IsOwed = record {
    valid =
        Change-IsValid db (started order_id key now db)
          (begin order_id key now o found pending free fresh refl) v.valid;
    orders_keyed =
        Below-weaken (λ x. x.id) db.next_id (suc db.next_id) db.orders (omega arith) v.orders_keyed;
    payments_refer = (
      omega (arith, order_made),
      All-imp (λ p. p.order_id < db.next_id) (λ p. p.order_id < suc db.next_id) db.payments
          (λ p h. omega arith) v.payments_refer,
    );
    waits = (λ e. order_pending, v.waits);
    owed = (λ e. absurd (cc), v.owed);
    backed =
        All-imp (Backed db.orders db.payments db.next_id) _ db.refunds
          (λ r h. (omega (arith, h.0), (λ e. absurd (omega (arith, h.0)), h.1))) v.backed;
    one_refund = v.one_refund;
  }

module _ (q : PaymentRow → Bool) (f : PaymentRow → PaymentRow)
    (kept : (p : PaymentRow)
      → ((f p).id ≡ p.id)
        × ((f p).order_id ≡ p.order_id)
        × ((f p).status ≡ p.status)
        × ((f p).amount ≡ p.amount)
        × ((f p).idempotency_key ≡ p.idempotency_key))
    (db : Db) (v : IsOwed db) where
  pub noted-IsOwed : IsOwed (record db { payments = update q f db.payments })
  noted-IsOwed = record {
    valid = Change-IsValid db _ (note_payments q f kept refl) v.valid;
    orders_keyed = v.orders_keyed;
    payments_refer =
        All-update (λ p. p.order_id < db.next_id) q f db.payments
          (All-imp (λ p. p.order_id < db.next_id) _ db.payments
            (λ p h. (λ t. rw ((kept p).1) h, λ e. h)) v.payments_refer);
    waits = All-update (Waits db.orders) q f db.payments (
        All-imp (Waits db.orders) _ db.payments
          (λ p h. (λ t. rw ((kept p).1, (kept p).2) h, λ e. h)) v.waits);
    owed = All-update (Owed db.orders db.refunds) q f db.payments (
        All-imp (Owed db.orders db.refunds) _ db.payments
          (λ p h. (λ t. rw ((kept p).0, (kept p).1, (kept p).2, (kept p).3) h, λ e. h)) v.owed);
    backed =
        All-imp (Backed db.orders db.payments db.next_id) _ db.refunds
          (λ r h. (
            h.0,
            All-update (Backs db.orders r) q f db.payments (
                All-imp (Backs db.orders r) _ db.payments
                  (λ p b. (λ t. rw ((kept p).0, (kept p).1, (kept p).3) b, λ e. b)) h.1),
          ))
          v.backed;
    one_refund = v.one_refund;
  }

module _ (q : RefundRow → Bool) (f : RefundRow → RefundRow)
    (kept : (r : RefundRow) → ((f r).payment_id ≡ r.payment_id) × ((f r).amount ≡ r.amount))
    (db : Db) (v : IsOwed db) where
  pub refund_noted-IsOwed : IsOwed (record db { refunds = update q f db.refunds })
  refund_noted-IsOwed = record {
    valid = Change-IsValid db _ (note_refunds q f kept refl) v.valid;
    orders_keyed = v.orders_keyed;
    payments_refer = v.payments_refer;
    waits = v.waits;
    owed =
        All-imp (Owed db.orders db.refunds) _ db.payments
          (λ p h done.
            All-imp (OwedFor db.refunds p) _ db.orders
              (λ o w same off.
                any-update (is_refund_of p) q f db.refunds (λ r is. rw ((kept r).0, (kept r).1) is)
                  (w same off))
              (h done))
          v.owed;
    backed = All-update (Backed db.orders db.payments db.next_id) q f db.refunds (
        All-imp (Backed db.orders db.payments db.next_id) _ db.refunds
          (λ r h. (λ t. rw ((kept r).0, (kept r).1) h, λ e. h)) v.backed);
    one_refund = λ k. omega (
      arith,
      v.one_refund k,
      count-update-le (λ r. r.payment_id == k) q f db.refunds
          (All-imp (Backed db.orders db.payments db.next_id) _ db.refunds
            (λ r h t is. grind (arith, kept r)) v.backed),
    );
  }
