-- ===== src/System/Cancelled.antt =====
-- `CancelOrder` of order-service/internal/repository/order.go and the keys and balances of the store.
use microservice_architectur.Base.{
  ℕ, ◌≤◌, ◌<◌, ◌≡◌, refl, ap, ◌∙◌, true, false, Option, none, some, List, [], ◌∷◌, ◌==◌, find,
  select, Error, ok, Io, arith, Option-cases, Result-cases, inl, inr, ◌⊎◌, map,
}
use microservice_architectur.Domain.Order.{OrderStatus, Product, same_status, can_transition}
use microservice_architectur.Store.{Db, OrderRow, PaymentRow}
use microservice_architectur.Store.Rows.{Below, Below-update, Below-weaken, All-imp, find-any}
use microservice_architectur.Orders.Cancel.{
  cancel_body, give_back, give_back_row, returned, refund_order, insert_refunds, insert_refund,
  check_payment, set_cancelled, is_paid_for, in_progress,
}
use microservice_architectur.Orders.Stock.{item_quantity}
use microservice_architectur.System.Balance.{
  held, stock_of, plus, balance, plus-plus, stock_of-give_back,
}
use microservice_architectur.System.Stocked.{IsStocked}
use microservice_architectur.System.Freed.{to_cancelled, own_quantity, held_after, stands_before}

check_payment-free :
    (fault : Option Error) (s : OrderStatus) (id : ℕ) (db : Db) (u : Unit {0})
    → check_payment fault s id db ≡ ok u
    → s ≡ OrderStatus.pending
    → in_progress id db ≡ false
unfolding check_payment
check_payment-free fault s id db u e pending = ground arith

-- What the transaction of a cancellation does, if it succeeds.
pub cancel_body-found :
    (io : Io) (id now : ℕ) (db : Db) (r : (ℕ × List ℕ) × Db)
    → cancel_body io id now db ≡ ok r
    → (o : OrderRow) × (find (λ o. o.id == id) db.orders ≡ some o)
      × (can_transition o.status OrderStatus.cancelled ≡ true)
      × ((o.status ≡ OrderStatus.pending) → in_progress id db ≡ false)
      × (db1 : Db) × (refund_order (io 4) o.status id now (set_cancelled id db) ≡ ok db1)
      × (r ≡ ((id, returned id db1), give_back id db1))
unfolding cancel_body
cancel_body-found io id now db r e =
    elim (Option-cases
      (elim (io 1) [ none ↦ find (λ (o : OrderRow). o.id == id) db.orders | some x ↦ none ])) [
        | inl missing ↦ absurd (ground arith)
        | inr (o, found) ↦ elim (Result-cases (check_payment (io 2) o.status id db)) [
          | inl (x, failed) ↦ absurd (ground arith)
          | inr (u, checked) ↦
              elim (Result-cases (refund_order (io 4) o.status id now (set_cancelled id db))) [
                | inl (x, failed) ↦ absurd (ground arith)
                | inr (db1, refunded) ↦ (
                  o,
                  ground arith,
                  ground arith,
                  λ p. check_payment-free (io 2) o.status id db u checked p,
                  db1,
                  refunded,
                  ground arith,
                )
              ]
        ]
      ]

-- What the refunds of a cancellation leave alone.
pub record IsBeside (db db' : Db) : Type 0 where
  pub goods : db'.products ≡ db.products
  pub items : db'.order_items ≡ db.order_items
  pub same_orders : db'.orders ≡ db.orders
  pub same_payments : db'.payments ≡ db.payments
  pub same_events : db'.payment_events ≡ db.payment_events
  pub grows : db.next_id ≤ db'.next_id

insert_refund-IsBeside : (now : ℕ) (p : PaymentRow) (db : Db) → IsBeside db (insert_refund now p db)
unfolding insert_refund
insert_refund-IsBeside now p db = record {
  goods = ground arith;
  items = ground arith;
  same_orders = ground arith;
  same_payments = ground arith;
  same_events = ground arith;
  grows = ground arith;
}

insert_refunds-IsBeside :
    (now : ℕ) (ps : List PaymentRow) (db : Db) → IsBeside db (insert_refunds now ps db)
unfolding insert_refunds
insert_refunds-IsBeside now [] db = record {
  goods = refl;
  items = refl;
  same_orders = refl;
  same_payments = refl;
  same_events = refl;
  grows = omega arith;
}
insert_refunds-IsBeside now (p ∷ ps) db =
    let a = insert_refund-IsBeside now p db in
    let b = insert_refunds-IsBeside now ps (insert_refund now p db) in
    record {
      goods = b.goods ∙ a.goods;
      items = b.items ∙ a.items;
      same_orders = b.same_orders ∙ a.same_orders;
      same_payments = b.same_payments ∙ a.same_payments;
      same_events = b.same_events ∙ a.same_events;
      grows = omega (arith, a.grows, b.grows);
    }

pub refund_order-cases :
    (fault : Option Error) (status : OrderStatus) (id now : ℕ) (db db' : Db)
    → refund_order fault status id now db ≡ ok db'
    → ((same_status status OrderStatus.paid ≡ false) × (db' ≡ db))
      ⊎ ((same_status status OrderStatus.paid ≡ true)
          × (db' ≡ insert_refunds now (select (is_paid_for id) db.payments) db))
unfolding refund_order
refund_order-cases fault status id now db db' e = ground arith

pub refund_order-IsBeside :
    (fault : Option Error) (status : OrderStatus) (id now : ℕ) (db db' : Db)
    → refund_order fault status id now db ≡ ok db'
    → IsBeside db db'
unfolding insert_refunds
refund_order-IsBeside fault status id now db db' e =
    elim (refund_order-cases fault status id now db db' e) [
      | inl (other, same) ↦ rw same (insert_refunds-IsBeside now [] db)
      | inr (paid, same) ↦
          rw same (insert_refunds-IsBeside now (select (is_paid_for id) db.payments) db)
    ]

Below-map :
    (f : Product → Product) (n : ℕ) (ps : List Product)
    → ((p : Product) → (f p).id ≡ p.id)
    → Below (λ p. p.id) n ps
    → Below (λ p. p.id) n (map f ps)
Below-map f n [] same b = tt
Below-map f n (p ∷ ps) same b = rw (same p) (b.0, Below-map f p.id ps same b.1)

module _ (id : ℕ) (o : OrderRow) (db db1 : Db) (found : find (λ o. o.id == id) db.orders ≡ some o)
    (can : can_transition o.status OrderStatus.cancelled ≡ true)
    (beside : IsBeside (set_cancelled id db) db1) (v : IsStocked db) where
  pub cancelled-IsStocked : IsStocked (give_back id db1)
  unfolding give_back set_cancelled
  cancelled-IsStocked = record {
    orders_keyed = rw (beside.same_orders) (
        Below-weaken (λ o. o.id) db.next_id db1.next_id (to_cancelled id db.orders) beside.grows
          (Below-update (λ o. o.id) db.next_id (λ o. o.id == id)
            (λ o. record o { status = OrderStatus.cancelled }) db.orders (λ o. refl)
            v.orders_keyed));
    bound = v.bound;
    products_keyed = rw (beside.goods) (
        Below-map (give_back_row id db1.order_items) v.bound db.products (λ p. ground arith)
          v.products_keyed);
    items_refer = rw (beside.items) (
        All-imp (λ i. i.order_id < db.next_id) (λ i. i.order_id < db1.next_id) db.order_items
          (λ i h. omega (arith, beside.grows)) v.items_refer);
    one_item = λ o k. rw (beside.items) (v.one_item o k);
  }

  pub cancelled-fair : (k : ℕ) → balance k (give_back id db1) ≡ balance k db
  unfolding give_back set_cancelled
  cancelled-fair k =
      let stands = stands_before id db.next_id o db.orders v.orders_keyed found can in
      let there = find-any (λ o. o.id == id) db.orders o found in
      let before = held_after id k db.orders db.order_items there stands in
      let back = stock_of-give_back id k db.order_items db.products in
      rw (beside.same_orders, beside.items, beside.goods)
        (rw (back, before, own_quantity id k db.order_items (v.one_item id k))
          (plus-plus (held k (to_cancelled id db.orders) db.order_items)
              (item_quantity id k db.order_items) (stock_of k db.products)
            ∙ ap (λ n. plus n (stock_of k db.products)) (omega arith)))
