-- ===== src/Products/Cancelled.antt =====
-- `CancelOrder` of order-service/internal/repository/order.go and the two caches of products.
use microservice_architectur.Base.{
  ℕ, ◌≡◌, refl, ◌∙◌, Bool, false, inl, inr, Option, List, [], ◌∷◌, ◌==◌, ◌&&◌, find, select, any,
  map, Error, ok, Io, arith, Bool-cases, transact-cases,
}
use microservice_architectur.Domain.Order.{Product, OrderItem, OrderStatus}
use microservice_architectur.Store.{Db, PaymentRow}
use microservice_architectur.Store.Rows.{any-false-find}
use microservice_architectur.Orders.Cancel.{
  cancel_order, cancel_body, give_back, give_back_row, returned, refund_order, insert_refunds,
  insert_refund, set_cancelled, is_paid_for,
}
use microservice_architectur.Cache.Client.{Redis, Json}
use microservice_architectur.Products.Local.{Lru, L1ProductRepo, invalidate_all}
use microservice_architectur.Products.Coherence.{IsCoherent, IsCoherent-imp}
use microservice_architectur.Products.Fresh.{InTable, Answered, Off, invalidate_all-IsCoherent}

-- The columns that an UPDATE of the stock reads.
abbrev IsSameGoods : Db → Db → Type 0
IsSameGoods db db' = (db'.products ≡ db.products) × (db'.order_items ≡ db.order_items)

insert_refunds-IsSameGoods :
    (now : ℕ) (ps : List PaymentRow) (db : Db) → IsSameGoods db (insert_refunds now ps db)
unfolding insert_refunds insert_refund
insert_refunds-IsSameGoods now [] db = (refl, refl)
insert_refunds-IsSameGoods now (p ∷ ps) db =
    let (a, b) = insert_refunds-IsSameGoods now ps (insert_refund now p db) in
    elim (Bool-cases (any (λ r. r.payment_id == p.id) db.refunds)) [
      | inl e ↦ (ground (arith, a), ground (arith, b))
      | inr e ↦ (ground (arith, a), ground (arith, b))
    ]

refund_order-IsSameGoods :
    (fault : Option Error) (status : OrderStatus) (id now : ℕ) (db db' : Db)
    → refund_order fault status id now db ≡ ok db'
    → IsSameGoods db db'
unfolding refund_order
refund_order-IsSameGoods fault status id now db db' e =
    let (a, b) = insert_refunds-IsSameGoods now (select (is_paid_for id) db.payments) db in
    (ground (arith, a), ground (arith, b))

cancel_body-ok :
    (io : Io) (id now : ℕ) (db : Db) (r : (ℕ × List ℕ) × Db)
    → cancel_body io id now db ≡ ok r
    → (status : OrderStatus) × (db1 : Db) × (refund_order (io 4) status id now (set_cancelled id db)
        ≡ ok db1)
      × (r ≡ ((id, returned id db1), give_back id db1))
unfolding cancel_body
cancel_body-ok io id now db r e = grind arith

-- A product that no returned id names has no item in the order.
module _ (order_id k : ℕ) (items : List OrderItem) where
  abbrev has_item : Product → Bool
  has_item p = any (λ (i : OrderItem). i.order_id == order_id && i.product_id == p.id) items

  abbrev named : List Product → Bool
  named ps = any (λ i. k == i) (map (λ (p : Product). p.id) (select has_item ps))

  give_back_row-kept : (p : Product) → has_item p ≡ false → give_back_row order_id items p ≡ p
  give_back_row-kept p e =
      let missing =
        any-false-find (λ (i : OrderItem). i.order_id == order_id && i.product_id == p.id) items
          e in
      rw (give_back_row, missing) refl

  give_back_row-id : (p : Product) → (give_back_row order_id items p).id ≡ p.id
  give_back_row-id p = ground arith

  give_back-find :
      (ps : List Product)
      → named ps ≡ false
      → find (λ (p : Product). p.id == k) (map (give_back_row order_id items) ps)
        ≡ find (λ (p : Product). p.id == k) ps
  give_back-find [] e = refl
  give_back-find (p ∷ ps) e = elim (Bool-cases (has_item p)) [
    | inl has ↦
        let e' = rw has at e in
        let other : (p.id == k) ≡ false = ground arith in
        let rest : named ps ≡ false = ground arith in
        rw (give_back_row-id p) (rw other (give_back-find ps rest))
    | inr lacks ↦
        let e' = rw lacks at e in rw (give_back_row-kept p lacks) (rw (give_back-find ps e') refl)
  ]

-- The products that a cancellation does not return are those of the table before it.
cancelled-InTable :
    (io : Io) (id now : ℕ) (db db' : Db) (order_id : ℕ) (ids : List ℕ)
    → cancel_order io id now db ≡ (ok (order_id, ids), db')
    → (k : ℕ) (p : Product) → InTable db k p
    → any (λ i. k == i) ids ≡ false
    → InTable db' k p
unfolding cancel_order give_back set_cancelled
cancelled-InTable io id now db db' order_id ids e k p here off =
    elim (transact-cases (io 0) (cancel_body io id now) db) [
      | inl (x, failed) ↦ absurd (ground arith)
      | inr (a, s, body, done) ↦
          let (status, db1, refunded, same) = cancel_body-ok io id now db (a, s) body in
          let (products, items) =
            refund_order-IsSameGoods (io 4) status id now (set_cancelled id db) db1 refunded in
          let ids_same : ids ≡ returned id db1 = ground arith in
          let db_same : db' ≡ give_back id db1 = ground arith in
          let off' : named id k db1.order_items db1.products ≡ false = rw ids_same at off in
          rw db_same (give_back-find id k db1.order_items db1.products off' ∙ rw products here)
    ]

module _ {L R : Type 0} (lru : Lru L Product) (redis : Redis R) (json : Json Product) where
  -- After a cancellation the caches are as good as before it. If they hold nothing but the table's
  -- products, `CancelOrder` returns without an error, and Redis answers the DEL of each product whose
  -- stock was given back, then the caches hold nothing but the products of the table afterwards.
  pub cancel_order-IsCoherent :
      (io : Io) (id now : ℕ) (db db' : Db) (order_id : ℕ) (ids : List ℕ) (c : L1ProductRepo L R)
      → cancel_order io id now db ≡ (ok (order_id, ids), db')
      → IsCoherent lru redis json (InTable db) c
      → Answered lru redis json ids c
      → IsCoherent lru redis json (InTable db') (invalidate_all lru redis json ids c)
  cancel_order-IsCoherent io id now db db' order_id ids c e v answered =
      invalidate_all-IsCoherent lru redis json ids c (InTable db')
        (IsCoherent-imp lru redis json (InTable db) (Off lru redis json ids (InTable db')) c
          (λ k p here off. cancelled-InTable io id now db db' order_id ids e k p here off) v)
        answered
