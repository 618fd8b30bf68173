-- ===== src/Orders/Cancel.antt =====
-- `CancelOrder` of order-service/internal/repository/order.go.
use microservice_architectur.Base.{
  ℕ, suc, ◌+◌, Bool, not, ◌&&◌, Option, none, some, List, [], ◌∷◌, ◌==◌, if◌then◌else◌, find,
  select, update, any, map, Error, Result, ok, ◌>>=◌, ◌>>◌, Io, attempt, reject_if, or_fail,
  transact,
}
use microservice_architectur.Domain.Order.{OrderStatus, OrderItem, Product, can_transition}
use microservice_architectur.Domain.Order
use microservice_architectur.Domain.Payment.{PaymentStatus}
use microservice_architectur.Domain.Payment
use microservice_architectur.Store.{Db, OrderRow, PaymentRow, RefundRow, RefundStatus}

abbrev pub is_status : OrderStatus → OrderStatus → Bool
is_status s t = Order.same_status s t

-- SELECT EXISTS (SELECT 1 FROM payments WHERE order_id = $1 AND status = 'pending')
abbrev pub in_progress : ℕ → Db → Bool
in_progress id db =
    any (λ p. p.order_id == id && Payment.same_status p.status PaymentStatus.pending) db.payments

-- The `if currentStatus == "pending"` block.
unfoldable pub check_payment : Option Error → OrderStatus → ℕ → Db → Result (Unit {0})
check_payment fault status id db =
    if not (is_status status OrderStatus.pending)
    then ok tt
    else do attempt fault; reject_if (in_progress id db) Error.payment_in_progress

-- UPDATE orders SET status = 'cancelled' WHERE id = $2
unfoldable pub set_cancelled : ℕ → Db → Db
set_cancelled id db = record db {
  orders = update (λ o. o.id == id) (λ o. record o { status = OrderStatus.cancelled }) db.orders;
}

-- One row of INSERT INTO refunds ... ON CONFLICT (payment_id) DO NOTHING
unfoldable pub insert_refund : ℕ → PaymentRow → Db → Db
insert_refund now p db =
    if any (λ (r : RefundRow). r.payment_id == p.id) db.refunds then db else record db {
      refunds =
          record {
            id = db.next_id;
            payment_id = p.id;
            amount = p.amount;
            status = RefundStatus.pending;
            attempts = 0;
            next_attempt_at = now;
            provider_refund_id = none;
          }
          ∷ db.refunds;
      next_id = suc db.next_id;
    }

unfoldable pub insert_refunds : ℕ → List PaymentRow → Db → Db
unfolding insert_refund
insert_refunds now [] db = db
insert_refunds now (p ∷ ps) db = insert_refunds now ps (insert_refund now p db)

abbrev pub is_paid_for : ℕ → PaymentRow → Bool
is_paid_for id p = p.order_id == id && Payment.same_status p.status PaymentStatus.succeeded

-- The `if currentStatus == "paid"` block.
unfoldable pub refund_order : Option Error → OrderStatus → ℕ → ℕ → Db → Result Db
refund_order fault status id now db =
    if not (is_status status OrderStatus.paid)
    then ok db
    else do attempt fault; ok (insert_refunds now (select (is_paid_for id) db.payments) db)

abbrev pub ordered_item : ℕ → ℕ → List OrderItem → Option OrderItem
ordered_item order_id product_id items =
    find (λ i. i.order_id == order_id && i.product_id == product_id) items

-- UPDATE products p SET stock = stock + oi.quantity FROM order_items oi ...: a product that joins with
-- several items is updated once, by one of them; here it is the newest.
abbrev pub give_back_row : ℕ → List OrderItem → Product → Product
give_back_row order_id items p = elim (ordered_item order_id p.id items) [
  | none ↦ p
  | some i ↦ record p { stock = p.stock + i.quantity }
]

unfoldable pub give_back : ℕ → Db → Db
give_back order_id db = record db {
  products = map (give_back_row order_id db.order_items) db.products;
}

-- ... RETURNING p.id
abbrev pub returned : ℕ → Db → List ℕ
returned order_id db =
    map (λ (p : Product). p.id)
      (select (λ p. any (λ i. i.order_id == order_id && i.product_id == p.id) db.order_items)
        db.products)

-- The transaction, its commit included. Every error of the first SELECT becomes ErrOrderNotFound.
unfoldable pub cancel_body : Io → ℕ → ℕ → Db → Result ((ℕ × List ℕ) × Db)
unfolding check_payment set_cancelled refund_order give_back
cancel_body io id now db =
    let row = find (λ (o : OrderRow). o.id == id) db.orders in
    do
      o ← or_fail (elim (io 1) [ none ↦ row | some e ↦ none ]) Error.order_not_found
      reject_if (not (can_transition o.status OrderStatus.cancelled)) (
          if is_status o.status OrderStatus.cancelled
          then Error.order_already_cancelled
          else Error.invalid_status_transition)
      check_payment (io 2) o.status id db
      attempt (io 3)
      db1 ← refund_order (io 4) o.status id now (set_cancelled id db)
      attempt (io 5)
      attempt (io 6)
      ok ((id, returned id db1), give_back id db1)

-- CancelOrder: the cancelled id and the products whose cache entries are dropped after the commit.
unfoldable pub cancel_order : Io → ℕ → ℕ → Db → Result (ℕ × List ℕ) × Db
unfolding cancel_body
cancel_order io id now db = transact (io 0) (cancel_body io id now) db
