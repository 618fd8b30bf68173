-- ===== src/System/Made.antt =====
-- The store around the loop of `CreateOrder`, order-service/internal/repository/order.go: the new
-- order, the idempotency keys and the outbox.
use microservice_architectur.Base.{
  ℕ, suc, ◌≤◌, ◌<◌, ◌≡◌, refl, ap, ◌∙◌, false, List, [], ◌∷◌, ◌==◌, All, arith, Bool-cases, inl,
  inr, ◌⊎◌, ==_iff, subst,
}
use microservice_architectur.Domain.Order.{OrderStatus, OrderItem}
use microservice_architectur.Store.{Db, OrderRow, KeyRow, OutboxEvent}
use microservice_architectur.Store.Rows.{All-imp, All-of_Below}
use microservice_architectur.Orders.Create.{Line, insert_order}
use microservice_architectur.Orders.Stock.{Distinct}
use microservice_architectur.System.Balance.{is_cancelled, balance, plus, stock_of, held_cong}
use microservice_architectur.System.Stocked.{IsStocked}
use microservice_architectur.System.Placed.{IsPlaced, Distinct-count, items_of}

-- What a transaction that makes an order, or finds one made, leaves.
pub record IsCreated (db db' : Db) : Type 0 where
  pub new_orders :
      (db'.orders ≡ db.orders)
      ⊎ ((o : OrderRow) × (o.id ≡ db.next_id)
          × (o.status ≡ OrderStatus.pending)
          × (db.next_id < db'.next_id)
          × (db'.orders ≡ o ∷ db.orders))
  pub same_payments : db'.payments ≡ db.payments
  pub same_events : db'.payment_events ≡ db.payment_events
  pub same_refunds : db'.refunds ≡ db.refunds
  pub grows : db.next_id ≤ db'.next_id
  pub stocked : IsStocked db → IsStocked db'
  pub fair : IsStocked db → (k : ℕ) → balance k db' ≡ balance k db

fresh_cancelled :
    (id : ℕ) (os : List OrderRow) → All (λ o. o.id < id) os → is_cancelled id os ≡ false
fresh_cancelled id [] h = refl
fresh_cancelled id (o ∷ os) h = ground (arith, fresh_cancelled id os h.1)

fresh_items :
    (id k : ℕ) (items : List OrderItem) → All (λ i. i.order_id < id) items → items_of id k items ≡ 0
fresh_items id k [] h = refl
fresh_items id k (i ∷ is) h = ground (arith, fresh_items id k is h.1)

abbrev new_order : ℕ → ℕ → OrderRow
new_order id now = record { id = id; status = OrderStatus.pending; created_at = now }

new_cancels :
    (id k now : ℕ) (os : List OrderRow)
    → is_cancelled id (new_order k now ∷ os) ≡ is_cancelled id os
new_cancels id k now os = ground arith

module _ (lines : List Line) (d : Distinct lines) (now : ℕ) (db db' : Db)
    (p : IsPlaced db.next_id lines (insert_order now db) db') (v : IsStocked db) where
  placed-IsStocked : IsStocked db'
  unfolding insert_order
  placed-IsStocked = record {
    orders_keyed = rw (p.same_orders) (omega (arith, p.grows), v.orders_keyed);
    bound = v.bound;
    products_keyed = p.keyed v.bound v.products_keyed;
    items_refer =
        p.refer
          (All-imp (λ i. i.order_id < db.next_id) (λ i. i.order_id < suc db.next_id) db.order_items
            (λ i h. omega arith) v.items_refer)
          (omega arith);
    one_item = λ o k. elim (Bool-cases (db.next_id == o)) [
      | inl e ↦
          let same = (==_iff db.next_id o).0 e in
          omega (
            arith,
            rw e at (p.items o k),
            Distinct-count k lines d,
            subst (λ j. items_of j k db.order_items ≡ 0) same
                (fresh_items db.next_id k db.order_items v.items_refer),
          )
      | inr e ↦ omega (arith, rw e at (p.items o k), v.one_item o k)
    ];
  }

  placed-fair : (k : ℕ) → balance k db' ≡ balance k db
  unfolding insert_order
  placed-fair k =
      p.fair k v.bound v.products_keyed (
        (new_cancels db.next_id db.next_id now db.orders
          ∙ fresh_cancelled db.next_id db.orders
              (All-of_Below (λ o. o.id) db.next_id db.orders v.orders_keyed)))
      ∙ ap (λ n. plus n (stock_of k db.products))
          (held_cong k db.orders (new_order db.next_id now ∷ db.orders) db.order_items
            (λ id. new_cancels id db.next_id now db.orders))

pub placed-IsCreated :
    (lines : List Line) (now : ℕ) (db db' : Db)
    → Distinct lines
    → IsPlaced db.next_id lines (insert_order now db) db'
    → IsCreated db db'
unfolding insert_order
placed-IsCreated lines now db db' d p = record {
  new_orders = inr (new_order db.next_id now, refl, refl, omega (arith, p.grows), p.same_orders);
  same_payments = p.same_payments;
  same_events = p.same_events;
  same_refunds = p.same_refunds;
  grows = omega (arith, p.grows);
  stocked = placed-IsStocked lines d now db db' p;
  fair = placed-fair lines d now db db' p;
}

-- The same store but for the idempotency keys and the outbox.
abbrev pub others : List KeyRow → List OutboxEvent → Db → Db
others ks es db = record db { idempotency_keys = ks; outbox = es }

others-IsStocked :
    (ks : List KeyRow) (es : List OutboxEvent) (db : Db)
    → IsStocked db
    → IsStocked (others ks es db)
others-IsStocked ks es db v = record {
  orders_keyed = v.orders_keyed;
  bound = v.bound;
  products_keyed = v.products_keyed;
  items_refer = v.items_refer;
  one_item = v.one_item;
}

pub after_others :
    (ks : List KeyRow) (es : List OutboxEvent) (db db' : Db)
    → IsCreated db db'
    → IsCreated db (others ks es db')
after_others ks es db db' m = record {
  new_orders = m.new_orders;
  same_payments = m.same_payments;
  same_events = m.same_events;
  same_refunds = m.same_refunds;
  grows = m.grows;
  stocked = λ v. others-IsStocked ks es db' (m.stocked v);
  fair = m.fair;
}

pub before_others :
    (ks : List KeyRow) (es : List OutboxEvent) (db db' : Db)
    → IsCreated (others ks es db) db'
    → IsCreated db db'
before_others ks es db db' m = record {
  new_orders = m.new_orders;
  same_payments = m.same_payments;
  same_events = m.same_events;
  same_refunds = m.same_refunds;
  grows = m.grows;
  stocked = λ v. m.stocked (others-IsStocked ks es db v);
  fair = λ v. m.fair (others-IsStocked ks es db v);
}

pub same-IsCreated : (db : Db) → IsCreated db db
same-IsCreated db = record {
  new_orders = inl refl;
  same_payments = refl;
  same_events = refl;
  same_refunds = refl;
  grows = omega arith;
  stocked = λ v. v;
  fair = λ v k. refl;
}
