-- ===== src/System/Stocked.antt =====
-- The keys of the tables of orders, items and products, and the balance of a product, under the
-- changes that the payments' side makes (Payments/Change.antt).
use microservice_architectur.Base.{
  ℕ, suc, ◌≤◌, ◌<◌, ◌≡◌, refl, ap, ◌&&◌, List, [], ◌∷◌, ◌==◌, update, count, All, arith, Bool-cases,
  inl, inr,
}
use microservice_architectur.Domain.Order.{OrderStatus}
use microservice_architectur.Domain.Payment.{PaymentStatus}
use microservice_architectur.Domain.Payment
use microservice_architectur.Store.{Db, OrderRow}
use microservice_architectur.Store.Rows.{Below, Below-weaken, Below-update, All-imp}
use microservice_architectur.Payments.{add_payment_event}
use microservice_architectur.Payments.Transition.{is_pending_order, set_status, mark_paid}
use microservice_architectur.Payments.Change.{Change, begin, move, note_payments, note_refunds}
use microservice_architectur.System.Balance.{is_cancelled, balance, held_cong, plus, stock_of}

pub record IsStocked (db : Db) : Type 0 where
  -- the primary keys of orders and products
  pub orders_keyed : Below (λ o. o.id) db.next_id db.orders
  pub bound : ℕ
  pub products_keyed : Below (λ p. p.id) bound db.products
  -- every item's order has been made
  pub items_refer : All (λ i. i.order_id < db.next_id) db.order_items
  -- no order has two items of one product
  pub one_item :
      (order_id k : ℕ) → count (λ i. i.order_id == order_id && i.product_id == k) db.order_items ≤ 1

-- A successor of the store: what the stock is reckoned from has not changed.
pub record IsLike (db db' : Db) : Type 0 where
  pub goods : db'.products ≡ db.products
  pub items : db'.order_items ≡ db.order_items
  pub cancels : (id : ℕ) → is_cancelled id db'.orders ≡ is_cancelled id db.orders
  pub keyed : Below (λ o. o.id) db'.next_id db'.orders
  pub grows : db.next_id ≤ db'.next_id

pub IsLike-IsStocked : (db db' : Db) → IsLike db db' → IsStocked db → IsStocked db'
IsLike-IsStocked db db' like v = record {
  orders_keyed = like.keyed;
  bound = v.bound;
  products_keyed = rw (like.goods) v.products_keyed;
  items_refer = rw (like.items) (
      All-imp (λ i. i.order_id < db.next_id) (λ i. i.order_id < db'.next_id) db.order_items
        (λ i h. omega (arith, like.grows)) v.items_refer);
  one_item = λ o k. rw (like.items) (v.one_item o k);
}

pub IsLike-balance : (k : ℕ) (db db' : Db) → IsLike db db' → balance k db' ≡ balance k db
IsLike-balance k db db' like =
    rw (like.items, like.goods)
      (ap (λ n. plus n (stock_of k db.products))
        (held_cong k db.orders db'.orders db.order_items like.cancels))

paid_cancels :
    (order_id id : ℕ) (os : List OrderRow)
    → is_cancelled id
        (update (is_pending_order order_id) (λ o. record o { status = OrderStatus.paid }) os)
      ≡ is_cancelled id os
paid_cancels order_id id [] = refl
paid_cancels order_id id (o ∷ os) = ground (arith, paid_cancels order_id id os)

pub Change-IsLike : (db db' : Db) → Change db db' → IsStocked db → IsLike db db'
unfolding add_payment_event set_status mark_paid
Change-IsLike db db' (begin order_id key now o found pending free fresh same) v = rw same (record {
  goods = refl;
  items = refl;
  cancels = λ id. refl;
  keyed =
      Below-weaken (λ o. o.id) db.next_id (suc db.next_id) db.orders (omega arith) v.orders_keyed;
  grows = omega arith;
})
Change-IsLike db db' (move id p to charge found can same) v =
    rw same (elim (Bool-cases (Payment.same_status to PaymentStatus.succeeded)) [
      | inl e ↦ rw e (record {
        goods = refl;
        items = refl;
        cancels = λ id. paid_cancels p.order_id id db.orders;
        keyed =
            Below-update (λ o. o.id) db.next_id (is_pending_order p.order_id)
              (λ o. record o { status = OrderStatus.paid }) db.orders (λ o. refl) v.orders_keyed;
        grows = omega arith;
      })
      | inr e ↦ rw e (record {
        goods = refl;
        items = refl;
        cancels = λ id. refl;
        keyed = v.orders_keyed;
        grows = omega arith;
      })
    ])
Change-IsLike db db' (note_payments q f kept same) v = rw same (record {
  goods = refl;
  items = refl;
  cancels = λ id. refl;
  keyed = v.orders_keyed;
  grows = omega arith;
})
Change-IsLike db db' (note_refunds q f kept same) v = rw same (record {
  goods = refl;
  items = refl;
  cancels = λ id. refl;
  keyed = v.orders_keyed;
  grows = omega arith;
})
