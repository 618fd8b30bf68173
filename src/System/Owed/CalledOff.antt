-- ===== src/System/Owed/CalledOff.antt =====
-- Orders that are cancelled, `CancelOrder` of order-service/internal/repository/order.go, and the money.
use microservice_architectur.Base.{
  ℕ, ◌≡◌, ◌≢◌, refl, sym, ◌∙◌, Bool, true, false, ◌&&◌, some, List, ◌==◌, find, any, All, arith,
  ==_iff, ==_refl, inl, inr, ◌⊎◌,
}
use microservice_architectur.Domain.Order.{OrderStatus, can_transition}
use microservice_architectur.Domain.Payment.{PaymentStatus}
use microservice_architectur.Domain.Payment
use microservice_architectur.Store.{Db, OrderRow, RefundRow}
use microservice_architectur.Store.Rows.{All-imp, All-and, All-find, All-update, find-holds}
use microservice_architectur.Store.Keys.{All-always, any-false}
use microservice_architectur.Orders.Cancel.{in_progress, is_paid_for}
use microservice_architectur.Payments.Invariant.{Settled, NotPending}
use microservice_architectur.System.Freed.{to_cancelled}
use microservice_architectur.System.Owed.{IsOwed, HasStatus, Waits, Owed, OwedFor, is_refund_of}

pending_or_paid :
    (s : OrderStatus)
    → can_transition s OrderStatus.cancelled ≡ true
    → (s ≡ OrderStatus.pending) ⊎ (s ≡ OrderStatus.paid)
unfolding can_transition
pending_or_paid OrderStatus.pending can = inl refl
pending_or_paid OrderStatus.paid can = inr refl
pending_or_paid s can = absurd (ground arith)

-- The order is found, may be cancelled and has no payment under way; `rs` are the refunds then.
module _ (id : ℕ) (o : OrderRow) (db : Db) (found : find (λ o. o.id == id) db.orders ≡ some o)
    (can : can_transition o.status OrderStatus.cancelled ≡ true)
    (free : o.status ≡ OrderStatus.pending → in_progress id db ≡ false) (v : IsOwed db) where
  abbrev pub orders : List OrderRow
  orders = to_cancelled id db.orders

  has_id : o.id ≡ id
  has_id = (==_iff o.id id).0 (find-holds (λ (x : OrderRow). x.id == id) db.orders o found)

  -- What is said of the rows of that id is said of the row that is found.
  of_found : (P : OrderRow → Type 0) → All (λ x. x.id ≡ id → P x) db.orders → P o
  of_found P h = All-find (λ x. x.id ≡ id → P x) (λ x. x.id == id) db.orders o h found has_id

  none_pending : All (λ x. x.status ≡ PaymentStatus.pending → x.order_id ≢ id) db.payments
  none_pending = elim (pending_or_paid o.status can) [
    | inl e ↦
        All-imp
          (λ x. (x.order_id == id && Payment.same_status x.status PaymentStatus.pending) ≡ false) _
          db.payments (λ x no wait mine. absurd (ground arith))
          (any-false (λ x. x.order_id == id && Payment.same_status x.status PaymentStatus.pending)
            db.payments (free e))
    | inr e ↦
        All-imp (Waits db.orders) _ db.payments
          (λ x w wait mine.
            let s =
              of_found (λ y. y.status ≡ OrderStatus.pending)
                (All-imp (HasStatus OrderStatus.pending x.order_id) _ db.orders
                  (λ y h same. h (same ∙ sym mine)) (w wait)) in
            absurd (cc))
          v.waits
  ]

  -- A payment that has succeeded for the order says that it is paid.
  pub paid_if_settled :
      All
        (λ x. x.status ≡ PaymentStatus.succeeded → x.order_id ≡ id → o.status ≡ OrderStatus.paid)
        db.payments
  paid_if_settled =
      All-imp (Settled db.orders) _ db.payments
        (λ x s done mine.
          let not_pending =
            of_found (λ y. y.status ≢ OrderStatus.pending)
              (All-imp (NotPending x.order_id) _ db.orders (λ y h same. h (same ∙ sym mine))
                (s done)) in
          elim (pending_or_paid o.status can) [ inl e ↦ absurd (not_pending e) | inr e ↦ e ])
        v.valid.settled

  kept_status :
      (s : OrderStatus) (k : ℕ)
      → k ≢ id
      → All (HasStatus s k) db.orders
      → All (HasStatus s k) orders
  kept_status s k other h =
      All-update (HasStatus s k) (λ x. x.id == id)
        (λ x. record x { status = OrderStatus.cancelled }) db.orders
        (All-imp (HasStatus s k) _ db.orders (λ x w. (λ t same. absurd (ground arith), λ f. w)) h)

  pub still_cancelled :
      (k : ℕ)
      → All (HasStatus OrderStatus.cancelled k) db.orders
      → All (HasStatus OrderStatus.cancelled k) orders
  still_cancelled k h =
      All-update (HasStatus OrderStatus.cancelled k) (λ x. x.id == id)
        (λ x. record x { status = OrderStatus.cancelled }) db.orders
        (All-imp (HasStatus OrderStatus.cancelled k) _ db.orders (λ x w. (λ t same. refl, λ f. w))
          h)

  pub now_cancelled : All (HasStatus OrderStatus.cancelled id) orders
  now_cancelled =
      All-update (HasStatus OrderStatus.cancelled id) (λ x. x.id == id)
        (λ x. record x { status = OrderStatus.cancelled }) db.orders
        (All-always _ db.orders
          (λ x. (λ t same. refl, λ f same. absurd (ground (arith, ==_refl id)))))

  pub off-Waits : All (Waits orders) db.payments
  off-Waits =
      All-imp (λ x. (x.status ≡ PaymentStatus.pending → x.order_id ≢ id) × Waits db.orders x) _
        db.payments (λ x h wait. kept_status OrderStatus.pending x.order_id (h.0 wait) (h.1 wait))
        (All-and (λ x. x.status ≡ PaymentStatus.pending → x.order_id ≢ id) (Waits db.orders)
          db.payments none_pending v.waits)

  pub off-Settled : All (Settled orders) db.payments
  off-Settled =
      All-imp (Settled db.orders) _ db.payments
        (λ x s done.
          All-update (NotPending x.order_id) (λ y. y.id == id)
            (λ y. record y { status = OrderStatus.cancelled }) db.orders
            (All-imp (NotPending x.order_id) _ db.orders (λ y h. (λ t same e. absurd (cc), λ f. h))
              (s done)))
        v.valid.settled

  -- With refunds that are the old ones and more, and one for each payment of the order.
  module _ (rs : List RefundRow)
      (more : (q : RefundRow → Bool) → any q db.refunds ≡ true → any q rs ≡ true)
      (all_paid : All
        (λ x. is_paid_for id x ≡ true → any (is_refund_of x) rs ≡ true)
        db.payments) where
    pub off-Owed : All (Owed orders rs) db.payments
    off-Owed =
        All-imp
          (λ x.
            (is_paid_for id x ≡ true → any (is_refund_of x) rs ≡ true)
            × Owed db.orders db.refunds x)
          _ db.payments
          (λ x h done.
            All-update (OwedFor rs x) (λ y. y.id == id)
              (λ y. record y { status = OrderStatus.cancelled }) db.orders
              (All-imp (OwedFor db.refunds x) _ db.orders
                (λ y w. (
                  λ t same off. h.0 (ground (arith, same, done)),
                  λ f same off. more (is_refund_of x) (w same off),
                ))
                (h.1 done)))
          (All-and _ (Owed db.orders db.refunds) db.payments all_paid v.owed)
