-- ===== src/System/Freed.antt =====
-- What an order holds before and after it is cancelled, the store of
-- order-service/internal/repository/order.go.
use microservice_architectur.Base.{
  ℕ, ◌+◌, ◌≤◌, ◌≡◌, refl, sym, true, false, ◌&&◌, ◌||◌, some, List, [], ◌∷◌, ◌==◌, if◌then◌else◌,
  find, update, any, sum_by, All, arith, Bool-cases, inl, inr, subst, ==_iff,
}
use microservice_architectur.Domain.Order.{OrderStatus, OrderItem, same_status, can_transition}
use microservice_architectur.Store.{OrderRow}
use microservice_architectur.Store.Rows.{Below, All-imp, find_unique}
use microservice_architectur.Orders.Stock.{item_quantity}
use microservice_architectur.System.Balance.{is_cancelled, held}
use microservice_architectur.System.Placed.{items_of}

abbrev pub to_cancelled : ℕ → List OrderRow → List OrderRow
to_cancelled id os = update (λ o. o.id == id) (λ o. record o { status = OrderStatus.cancelled }) os

-- The orders that are cancelled afterwards.
cancelled_after :
    (id j : ℕ) (os : List OrderRow)
    → is_cancelled j (to_cancelled id os)
      ≡ ((id == j && any (λ o. o.id == id) os) || is_cancelled j os)
cancelled_after id j [] = ground arith
cancelled_after id j (o ∷ os) = ground (arith, cancelled_after id j os)

-- What the items of the order hold of the product `k`.
abbrev pub own : ℕ → ℕ → OrderItem → ℕ
own id k i = if i.order_id == id && i.product_id == k then i.quantity else 0

own_none :
    (id k : ℕ) (items : List OrderItem) → items_of id k items ≡ 0 → sum_by (own id k) items ≡ 0
own_none id k [] h = refl
own_none id k (i ∷ is) h = ground (arith, own_none id k is)

-- With at most one item of a product, what is given back is what the order held.
pub own_quantity :
    (id k : ℕ) (items : List OrderItem)
    → items_of id k items ≤ 1
    → sum_by (own id k) items ≡ item_quantity id k items
own_quantity id k [] h = refl
own_quantity id k (i ∷ is) h = ground (arith, own_quantity id k is, own_none id k is)

pub held_after :
    (id k : ℕ) (os : List OrderRow) (items : List OrderItem)
    → any (λ o. o.id == id) os ≡ true
    → is_cancelled id os ≡ false
    → held k os items ≡ held k (to_cancelled id os) items + sum_by (own id k) items
held_after id k os [] there stands = refl
held_after id k os (i ∷ is) there stands =
    let ih = held_after id k os is there stands in
    let after = cancelled_after id i.order_id os in
    elim (Bool-cases (i.order_id == id)) [
      | inl e ↦
          let own_order =
            subst (λ j. is_cancelled j os ≡ false) (sym ((==_iff i.order_id id).0 e)) stands in
          let now_cancelled : is_cancelled i.order_id (to_cancelled id os) ≡ true =
            ground (arith, after, there, e) in
          rw (e, now_cancelled, own_order, ih) (ground arith)
      | inr e ↦
          let as_before : is_cancelled i.order_id (to_cancelled id os)
              ≡ is_cancelled i.order_id os =
            ground (arith, after, e) in
          rw (e, as_before, ih) (ground arith)
    ]

none_cancelled :
    (id : ℕ) (os : List OrderRow)
    → All (λ o. o.id ≡ id → same_status o.status OrderStatus.cancelled ≡ false) os
    → is_cancelled id os ≡ false
none_cancelled id [] h = refl
none_cancelled id (o ∷ os) h = ground (arith, none_cancelled id os h.1)

movable :
    (s : OrderStatus)
    → can_transition s OrderStatus.cancelled ≡ true
    → same_status s OrderStatus.cancelled ≡ false
unfolding can_transition
movable s can = ground arith

pub stands_before :
    (id n : ℕ) (o : OrderRow) (os : List OrderRow)
    → Below (λ o. o.id) n os
    → find (λ o. o.id == id) os ≡ some o
    → can_transition o.status OrderStatus.cancelled ≡ true
    → is_cancelled id os ≡ false
stands_before id n o os b found can = none_cancelled id os (
    All-imp (λ x. x.id ≡ id → x ≡ o) _ os (λ x only same. rw (only same) (movable o.status can))
      (find_unique (λ o. o.id) n id os o b found))
