-- ===== src/System/Owed/Ordered.antt =====
-- Orders that are made, in the store of order-service/internal/repository.
use microservice_architectur.Base.{◌<◌, ◌≡◌, ◌∷◌, arith, inl, inr, subst, sym}
use microservice_architectur.Domain.Order.{OrderStatus}
use microservice_architectur.Store.{Db, OrderRow}
use microservice_architectur.Store.Rows.{Below, Below-weaken, All-imp, All-and}
use microservice_architectur.Payments.Invariant.{Settled}
use microservice_architectur.System.Made.{IsCreated}
use microservice_architectur.System.Owed.{IsOwed, Waits, Owed, Backs, Backed}

-- The store with these orders, items, products and keys, and this sequence.
module _ (db db' : Db) (m : IsCreated db db') (v : IsOwed db) where
  -- The orders are the same ones.
  kept_orders-IsOwed : db'.orders ≡ db.orders → IsOwed db'
  kept_orders-IsOwed same = record {
    valid = record {
      fresh =
          rw (m.same_payments)
            (Below-weaken (λ p. p.id) db.next_id db'.next_id db.payments m.grows v.valid.fresh);
      one_active = λ o. rw (m.same_payments) (v.valid.one_active o);
      logged = rw (m.same_payments, m.same_events) v.valid.logged;
      settled = rw (m.same_payments, same) v.valid.settled;
    };
    orders_keyed =
        rw same (Below-weaken (λ o. o.id) db.next_id db'.next_id db.orders m.grows v.orders_keyed);
    payments_refer = rw (m.same_payments) (
        All-imp (λ p. p.order_id < db.next_id) (λ p. p.order_id < db'.next_id) db.payments
          (λ p h. omega (arith, m.grows)) v.payments_refer);
    waits = rw (m.same_payments, same) v.waits;
    owed = rw (m.same_payments, m.same_refunds, same) v.owed;
    backed =
        rw (m.same_payments, m.same_refunds, same)
          (All-imp (Backed db.orders db.payments db.next_id)
            (Backed db.orders db.payments db'.next_id) db.refunds
            (λ r h. (omega (arith, h.0, m.grows), h.1)) v.backed);
    one_refund = λ k. rw (m.same_refunds) (v.one_refund k);
  }

  -- There is one more, which is pending.
  more_orders-IsOwed :
      (o : OrderRow)
      → o.id ≡ db.next_id
      → o.status ≡ OrderStatus.pending
      → db.next_id < db'.next_id
      → db'.orders ≡ o ∷ db.orders
      → IsOwed db'
  more_orders-IsOwed o new pending more same = record {
    valid = record {
      fresh =
          rw (m.same_payments)
            (Below-weaken (λ p. p.id) db.next_id db'.next_id db.payments m.grows v.valid.fresh);
      one_active = λ k. rw (m.same_payments) (v.valid.one_active k);
      logged = rw (m.same_payments, m.same_events) v.valid.logged;
      settled =
          rw (m.same_payments, same)
            (All-imp (λ p. (p.order_id < db.next_id) × Settled db.orders p) _ db.payments
              (λ p h done. (λ mine. absurd (omega (arith, h.0, new)), h.1 done))
              (All-and (λ p. p.order_id < db.next_id) (Settled db.orders) db.payments
                v.payments_refer v.valid.settled));
    };
    orders_keyed =
        rw same
          (omega (arith, new), subst (λ n. Below (λ x. x.id) n db.orders) (sym new) v.orders_keyed);
    payments_refer = rw (m.same_payments) (
        All-imp (λ p. p.order_id < db.next_id) (λ p. p.order_id < db'.next_id) db.payments
          (λ p h. omega (arith, m.grows)) v.payments_refer);
    waits =
        rw (m.same_payments, same)
          (All-imp (Waits db.orders) (Waits (o ∷ db.orders)) db.payments
            (λ p w e. (λ mine. pending, w e)) v.waits);
    owed =
        rw (m.same_payments, m.same_refunds, same)
          (All-imp (Owed db.orders db.refunds) (Owed (o ∷ db.orders) db.refunds) db.payments
            (λ p w e. (λ mine off. absurd (ground arith), w e)) v.owed);
    backed =
        rw (m.same_payments, m.same_refunds, same)
          (All-imp (Backed db.orders db.payments db.next_id) _ db.refunds
            (λ r h. (
              omega (arith, h.0, more),
              All-imp (λ p. (p.order_id < db.next_id) × Backs db.orders r p)
                  (Backs (o ∷ db.orders) r) db.payments
                  (λ p b e. ((b.1 e).0, (λ mine. absurd (omega (arith, b.0, new)), (b.1 e).1)))
                  (All-and (λ p. p.order_id < db.next_id) (Backs db.orders r) db.payments
                    v.payments_refer h.1),
            ))
            v.backed);
    one_refund = λ k. rw (m.same_refunds) (v.one_refund k);
  }

  pub created-IsOwed : IsOwed db'
  created-IsOwed = elim m.new_orders [
    | inl same ↦ kept_orders-IsOwed same
    | inr (o, new, pending, more, same) ↦ more_orders-IsOwed o new pending more same
  ]
