-- ===== src/Orders/Roundtrip.antt =====
-- `CreateOrder` and `CancelOrder` of order-service/internal/repository/order.go, one after the other.
use microservice_architectur.Base.{
  ℕ, ◌+◌, ◌<◌, ◌≡◌, refl, sym, ap, ◌∙◌, fun_ext, false, ◌&&◌, Option, none, some, List, [], ◌∷◌,
  ◌==◌, find, any, map, All, ok, Io, healthy, arith, Bool-cases, Option-cases, Result-cases, inl,
  inr, ==_refl,
}
use microservice_architectur.Domain.Order.{OrderStatus, OrderItem, Product, can_transition}
use microservice_architectur.Domain.Payment.{PaymentStatus, same_status}
use microservice_architectur.Store.{Db, OrderRow, PaymentRow}
use microservice_architectur.Store.Rows.{Below}
use microservice_architectur.Orders.Create.{
  Line, Created, place, create_new, create_order, sort_lines, insert_order, claim_key,
  existing_order,
}
use microservice_architectur.Orders.Cancel.{
  cancel_order, in_progress, returned, set_cancelled, give_back, give_back_row,
}
use microservice_architectur.Orders.Sorting.{Distinct-sort_lines}
use microservice_architectur.Orders.Stock.{
  ordered, add_back, place-stock, place-items, place-keeps, item_quantity, mentions, Distinct,
  ordered-zero,
}

-- The primary key of the products, and the foreign keys on orders.
pub record IsKeyed (db : Db) : Type 0 where
  pub bound : ℕ
  pub products_keyed : Below (λ p. p.id) bound db.products
  pub items_refer : All (λ i. i.order_id < db.next_id) db.order_items
  pub payments_refer : All (λ p. p.order_id < db.next_id) db.payments

no_items :
    (id k : ℕ) (items : List OrderItem)
    → All (λ i. i.order_id < id) items
    → item_quantity id k items ≡ 0
no_items id k [] h = refl
no_items id k (i ∷ is) h = ground (arith, no_items id k is h.1)

no_payments :
    (id : ℕ) (ps : List PaymentRow)
    → All (λ p. p.order_id < id) ps
    → any (λ p. p.order_id == id && same_status p.status PaymentStatus.pending) ps ≡ false
no_payments id [] h = refl
no_payments id (p ∷ ps) h = ground (arith, no_payments id ps h.1)

-- What a new order leaves behind.
create_new-facts :
    (io : Io) (items : List Line) (key : Option ℕ) (now : ℕ) (db : Db) (c : Created) (db' : Db)
    → create_new io items key now db ≡ ok (c, db')
    → (db1 : Db) × (place io 4 db.next_id (sort_lines items) (insert_order now db) ≡ ok db1)
      × (c.order_id ≡ db.next_id)
      × (db'.products ≡ db1.products)
      × (db'.order_items ≡ db1.order_items)
      × (db'.orders ≡ db1.orders)
      × (db'.payments ≡ db1.payments)
unfolding create_new
create_new-facts io items key now db c db' e =
    elim (Result-cases (place io 4 db.next_id (sort_lines items) (insert_order now db))) [
      | inl (x, failed) ↦ absurd (ground arith)
      | inr (db1, placed) ↦
          (db1, placed, ground arith, ground arith, ground arith, ground arith, ground arith)
    ]

cancel_pending :
    (id now : ℕ) (db : Db) (o : OrderRow)
    → find (λ o. o.id == id) db.orders ≡ some o
    → o.status ≡ OrderStatus.pending
    → in_progress id db ≡ false
    → cancel_order healthy id now db
      ≡ (ok (id, returned id (set_cancelled id db)), give_back id (set_cancelled id db))
unfolding cancel_order can_transition
cancel_pending id now db o found pending free = ground arith

give_back_row-quantity :
    (id : ℕ) (items : List OrderItem) (p : Product)
    → give_back_row id items p ≡ record p { stock = p.stock + item_quantity id p.id items }
give_back_row-quantity id items p = ground arith

module _ (io : Io) (items : List Line) (key : Option ℕ) (now : ℕ) (db : Db) (c : Created) (db' : Db)
    (keyed : IsKeyed db) (distinct : Distinct items)
    (made : create_new io items key now db ≡ ok (c, db')) where
  item_quantity-ordered :
      (k : ℕ) → item_quantity c.order_id k db'.order_items ≡ ordered k (sort_lines items)
  unfolding insert_order
  item_quantity-ordered k =
      let (db1, placed, same_id, _, same_items, _, _) =
        create_new-facts io items key now db c db' made in
      let count =
        place-items io 4 db.next_id k (sort_lines items) (insert_order now db) db1
          (Distinct-sort_lines items distinct) placed in
      let old = no_items db.next_id k db.order_items keyed.items_refer in
      rw (same_id, same_items)
        (count ∙ elim (Bool-cases (mentions k (sort_lines items))) [
          | inl t ↦ rw t
          | inr f ↦ rw f (old ∙ sym (ordered-zero k (sort_lines items) f))
        ])

  given_back :
      (p : Product) → give_back_row c.order_id db'.order_items p ≡ add_back (sort_lines items) p
  given_back p =
      give_back_row-quantity c.order_id db'.order_items p
      ∙ ap (λ n. record p { stock = p.stock + n }) (item_quantity-ordered p.id)

  restored : (give_back c.order_id (set_cancelled c.order_id db')).products ≡ db.products
  unfolding give_back set_cancelled insert_order
  restored =
      let (db1, placed, _, same_products, _, _, _) =
        create_new-facts io items key now db c db' made in
      ap (λ f. map f db'.products) (fun_ext given_back)
      ∙ ap (map (add_back (sort_lines items))) same_products
      ∙ place-stock io 4 db.next_id keyed.bound (sort_lines items) (insert_order now db) db1
          keyed.products_keyed placed

  found_pending :
      (o : OrderRow) × (find (λ o. o.id == c.order_id) db'.orders ≡ some o)
      × (o.status ≡ OrderStatus.pending)
  unfolding insert_order
  found_pending =
      let (db1, placed, same_id, _, _, same_orders, _) =
        create_new-facts io items key now db c db' made in
      let kept = place-keeps io 4 db.next_id (sort_lines items) (insert_order now db) db1 placed in
      (
        record { id = db.next_id; status = OrderStatus.pending; created_at = now },
        rw (same_orders, kept.0, same_id) (rw (==_refl db.next_id)),
        refl,
      )

  no_payment : in_progress c.order_id db' ≡ false
  unfolding insert_order
  no_payment =
      let (db1, placed, same_id, _, _, _, same_payments) =
        create_new-facts io items key now db c db' made in
      let kept = place-keeps io 4 db.next_id (sort_lines items) (insert_order now db) db1 placed in
      rw (same_payments, kept.1, same_id) (no_payments db.next_id db.payments keyed.payments_refer)

  cancel-create_new :
      (later : ℕ)
      → ((cancel_order healthy c.order_id later db').0
          ≡ ok (c.order_id, returned c.order_id (set_cancelled c.order_id db')))
        × ((cancel_order healthy c.order_id later db').1.products ≡ db.products)
  cancel-create_new later =
      let (o, found, pending) = found_pending in
      let done = cancel_pending c.order_id later db' o found pending no_payment in
      (ap (λ r. r.0) done, ap (λ r. r.1.products) done ∙ restored)

claim_key-IsKeyed : (key : ℕ) (db : Db) → IsKeyed db → IsKeyed (claim_key key db)
unfolding claim_key
claim_key-IsKeyed key db k = elim (Bool-cases (any (λ r. r.key == key) db.idempotency_keys)) [
  | inl t ↦ rw t k
  | inr f ↦ rw f (record {
    bound = k.bound;
    products_keyed = k.products_keyed;
    items_refer = k.items_refer;
    payments_refer = k.payments_refer;
  })
]

claim_key-products : (key : ℕ) (db : Db) → (claim_key key db).products ≡ db.products
unfolding claim_key
claim_key-products key db = ground arith

create_order-key_new :
    (io : Io) (items : List Line) (key now : ℕ) (db : Db) (c : Created) (db' : Db)
    → create_order io items (some key) now db ≡ ok (c, db')
    → c.exists ≡ false
    → create_new io items (some key) now (claim_key key db) ≡ ok (c, db')
unfolding create_order
create_order-key_new io items key now db c db' e new =
    elim (Option-cases (existing_order (io 1) key (claim_key key db))) [
      | inl missing ↦ ground arith
      | inr (id, found) ↦ absurd (ground arith)
    ]

-- Making an order and cancelling it before any payment is a round trip for the stock: in a store
-- with its keys, if `CreateOrder` makes a new order from items with distinct products, with or
-- without an idempotency key, then a cancellation of that order on the store it left, with no
-- failure, succeeds with the order's id and restores every product as it was before.
pub cancel-create_order :
    (io : Io) (items : List Line) (key : Option ℕ) (now later : ℕ) (db : Db) (c : Created)
    (db' : Db)
    → IsKeyed db
    → Distinct items
    → create_order io items key now db ≡ ok (c, db')
    → c.exists ≡ false
    → ((cancel_order healthy c.order_id later db').0
        ≡ ok (c.order_id, returned c.order_id (set_cancelled c.order_id db')))
      × ((cancel_order healthy c.order_id later db').1.products ≡ db.products)
unfolding create_order
cancel-create_order io items none now later db c db' k d e new =
    cancel-create_new io items none now db c db' k d e later
cancel-create_order io items (some key) now later db c db' k d e new =
    let made = create_order-key_new io items key now db c db' e new in
    let (answer, stock) =
      cancel-create_new io items (some key) now (claim_key key db) c db'
        (claim_key-IsKeyed key db k) d made later in
    (answer, stock ∙ claim_key-products key db)
