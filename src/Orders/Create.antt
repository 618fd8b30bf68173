-- ===== src/Orders/Create.antt =====
-- `CreateOrder` of order-service/internal/repository/order.go.
use microservice_architectur.Base.{
  ℕ, suc, ◌+◌, ◌-◌, Bool, true, false, not, ◌&&◌, Option, none, some, List, [], ◌∷◌, ◌==◌, leb, ltb,
  if◌then◌else◌, find, update, any, map, Error, Result, ok, err, ◌>>=◌, ◌>>◌, Io, attempt,
  reject_if,
}
use microservice_architectur.Domain.Order.{OrderStatus, Product}
use microservice_architectur.Store.{Db, KeyRow}

-- What the service fills in of a `domain.OrderItem`.
pub record Line : Type 0 where
  pub product_id : ℕ
  pub quantity : ℕ

-- The new order's id, whether it was there before, and the products whose cache entries are dropped.
pub record Created : Type 0 where
  pub order_id : ℕ
  pub exists : Bool
  pub invalidated : List ℕ

-- sort.Slice by ProductID
unfoldable pub insert_line : Line → List Line → List Line
insert_line l [] = l ∷ []
insert_line l (m ∷ ms) =
    let rest = insert_line l ms in if leb l.product_id m.product_id then l ∷ m ∷ ms else m ∷ rest

unfoldable pub sort_lines : List Line → List Line
unfolding insert_line
sort_lines [] = []
sort_lines (l ∷ ls) = insert_line l (sort_lines ls)

-- INSERT INTO idempotency_keys ... ON CONFLICT (key) DO NOTHING
unfoldable pub claim_key : ℕ → Db → Db
claim_key key db =
    if any (λ (r : KeyRow). r.key == key) db.idempotency_keys
    then db
    else record db { idempotency_keys = record { key = key; order_id = 0 } ∷ db.idempotency_keys }

-- SELECT order_id FROM idempotency_keys, whose error the code takes for no order.
unfoldable pub existing_order : Option Error → ℕ → Db → Option ℕ
existing_order (some e) key db = none
existing_order none key db = elim (find (λ (r : KeyRow). r.key == key) db.idempotency_keys) [
  | none ↦ none
  | some r ↦ if ltb 0 r.order_id then some r.order_id else none
]

-- INSERT INTO orders (status) VALUES ('pending') RETURNING id
unfoldable pub insert_order : ℕ → Db → Db
insert_order now db = record db {
  orders = record { id = db.next_id; status = OrderStatus.pending; created_at = now } ∷ db.orders;
  next_id = suc db.next_id;
}

abbrev pub has_stock : Line → Product → Bool
has_stock l p = p.id == l.product_id && leb l.quantity p.stock

-- UPDATE products SET stock = stock - $1 WHERE id = $2 AND stock >= $1
unfoldable pub take_stock : Line → List Product → List Product
take_stock l ps = update (has_stock l) (λ p. record p { stock = p.stock - l.quantity }) ps

-- INSERT INTO order_items
unfoldable pub insert_item : ℕ → Line → ℕ → Db → Db
insert_item order_id l price db = record db {
  order_items =
      record {
        id = db.next_id;
        order_id = order_id;
        product_id = l.product_id;
        quantity = l.quantity;
        price = price;
      }
      ∷ db.order_items;
  next_id = suc db.next_id;
}

-- SELECT price FROM products WHERE id = $1; the code turns every error of it into ErrProductNotFound.
unfoldable pub price_of : Option Error → ℕ → Db → Result ℕ
price_of (some e) product_id db = err Error.product_not_found
price_of none product_id db = elim (find (λ (p : Product). p.id == product_id) db.products) [
  | none ↦ err Error.product_not_found
  | some p ↦ ok p.price
]

-- The loop over the items, whose statements are numbered from `n` on.
unfoldable pub place : Io → ℕ → ℕ → List Line → Db → Result Db
unfolding price_of take_stock insert_item
place io n order_id [] db = ok db
place io n order_id (l ∷ ls) db = do
  price ← price_of (io n) l.product_id db
  attempt (io (n + 1))
  reject_if (not (any (has_stock l) db.products)) Error.insufficient_stock
  attempt (io (n + 2))
  place io (n + 3) order_id ls
      (insert_item order_id l price (record db { products = take_stock l db.products }))

-- UPDATE idempotency_keys SET order_id = $1 WHERE key = $2
unfoldable pub fill_key : ℕ → ℕ → Db → Db
fill_key order_id key db = record db {
  idempotency_keys =
      update (λ r. r.key == key) (λ r. record r { order_id = order_id }) db.idempotency_keys;
}

unfoldable pub finish_key : Option Error → Option ℕ → ℕ → Db → Result Db
unfolding fill_key
finish_key fault none order_id db = ok db
finish_key fault (some key) order_id db = do attempt fault; ok (fill_key order_id key db)

-- The part behind the look-up of the key.
unfoldable pub create_new : Io → List Line → Option ℕ → ℕ → Db → Result (Created × Db)
unfolding insert_order finish_key
create_new io items key now db =
    let lines = sort_lines items in
    do
      attempt (io 2)
      db1 ← place io 4 db.next_id lines (insert_order now db)
      db2 ← finish_key (io 3) key db.next_id db1
      ok (
        record {
          order_id = db.next_id;
          exists = false;
          invalidated = map (λ l. l.product_id) lines;
        },
        db2,
      )

-- CreateOrder; an idempotency key "" is `none`.
unfoldable pub create_order : Io → List Line → Option ℕ → ℕ → Db → Result (Created × Db)
unfolding claim_key existing_order create_new
create_order io items none now db = create_new io items none now db
create_order io items (some key) now db = do
  attempt (io 0)
  elim (existing_order (io 1) key (claim_key key db)) [
    | some id ↦ ok (record { order_id = id; exists = true; invalidated = [] }, claim_key key db)
    | none ↦ create_new io items (some key) now (claim_key key db)
  ]
