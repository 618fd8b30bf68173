-- ===== src/Orders/Stock.antt =====
-- The stock under the loop of `CreateOrder`, order-service/internal/repository/order.go.
use microservice_architectur.Base.{
  ℕ, ◌+◌, ◌-◌, ◌<◌, ◌≡◌, refl, sym, ap, subst, ◌∙◌, Bool, true, false, none, some, List, [], ◌∷◌,
  ◌==◌, if◌then◌else◌, any, map, All, ok, Io, arith, Bool-cases, Result-cases, inl, inr, ==_iff,
  ==_refl,
}
use microservice_architectur.Domain.Order.{OrderItem, Product}
use microservice_architectur.Store.{Db}
use microservice_architectur.Store.Rows.{Below, Below-update, All-of_Below, All-imp}
use microservice_architectur.Orders.Cancel.{ordered_item}
use microservice_architectur.Orders.Create.{
  Line, has_stock, take_stock, place, insert_item, price_of,
}

-- The quantity of a product that the lines order.
abbrev pub ordered : ℕ → List Line → ℕ
ordered k [] = 0
ordered k (l ∷ ls) = (if l.product_id == k then l.quantity else 0) + ordered k ls

-- The product with what the lines order put back.
abbrev pub add_back : List Line → Product → Product
add_back ls p = record p { stock = p.stock + ordered p.id ls }

abbrev pub one_back : Line → Product → Product
one_back l p = record p { stock = p.stock + (if l.product_id == p.id then l.quantity else 0) }

untouched :
    (l : Line) (ps : List Product)
    → All (λ p. p.id < l.product_id) ps
    → (take_stock l ps ≡ ps) × (map (one_back l) ps ≡ ps)
unfolding take_stock
untouched l [] h = (refl, refl)
untouched l (p ∷ ps) h = let ih = untouched l ps h.1 in (ground (arith, ih), ground (arith, ih))

none_enough :
    (l : Line) (ps : List Product)
    → All (λ p. p.id < l.product_id) ps
    → any (has_stock l) ps ≡ false
none_enough l [] h = refl
none_enough l (p ∷ ps) h = ground (arith, none_enough l ps h.1)

-- A successful UPDATE takes exactly the line's quantity, from exactly the line's product.
pub take_stock-one_back :
    (l : Line) (n : ℕ) (ps : List Product)
    → Below (λ p. p.id) n ps
    → any (has_stock l) ps ≡ true
    → map (one_back l) (take_stock l ps) ≡ ps
unfolding take_stock
take_stock-one_back l n [] b h = refl
take_stock-one_back l n (p ∷ ps) b h = elim (Bool-cases (p.id == l.product_id)) [
  | inl same ↦
      let older =
        All-imp (λ (q : Product). q.id < p.id) (λ q. q.id < l.product_id) ps (λ q lt. ground arith)
          (All-of_Below (λ q. q.id) p.id ps b.1) in
      ground (arith, untouched l ps older, none_enough l ps older)
  | inr other ↦ ground (arith, take_stock-one_back l p.id ps b.1)
]

add_back_both :
    (l : Line) (ls : List Line) (ps : List Product)
    → map (one_back l) (map (add_back ls) ps) ≡ map (add_back (l ∷ ls)) ps
add_back_both l ls [] = refl
add_back_both l ls (p ∷ ps) = ground (arith, add_back_both l ls ps)

-- One round of the loop, if the loop succeeds.
pub place-round :
    (io : Io) (n order_id : ℕ) (l : Line) (ls : List Line) (db db' : Db)
    → place io n order_id (l ∷ ls) db ≡ ok db'
    → (price : ℕ) × (any (has_stock l) db.products ≡ true)
      × (place io
            (n + 3)
            order_id
            ls
            (insert_item order_id l price (record db { products = take_stock l db.products }))
          ≡ ok db')
unfolding place
place-round io n order_id l ls db db' e = elim (Result-cases (price_of (io n) l.product_id db)) [
  | inl (x, failed) ↦ absurd (ground arith)
  | inr (price, found) ↦ (price, ground arith, ground arith)
]

add_back_nil : (ps : List Product) → map (add_back []) ps ≡ ps
add_back_nil [] = refl
add_back_nil (p ∷ ps) = ground (arith, add_back_nil ps)

-- If the loop over the items succeeds, each product has lost exactly what the items order of it,
-- nothing was taken that was not there, and all else about the products is as before: the products
-- before are the products after with the ordered quantities put back.
pub place-stock :
    (io : Io) (n order_id bound : ℕ) (ls : List Line) (db db' : Db)
    → Below (λ p. p.id) bound db.products
    → place io n order_id ls db ≡ ok db'
    → map (add_back ls) db'.products ≡ db.products
unfolding place insert_item
place-stock io n order_id bound [] db db' b e =
    let same : db ≡ db' = ground arith in
    add_back_nil db'.products ∙ ap (λ (d : Db). d.products) (sym same)
place-stock io n order_id bound (l ∷ ls) db db' b e =
    let (price, enough, rest) = place-round io n order_id l ls db db' e in
    let kept =
      Below-update (λ p. p.id) bound (has_stock l) (λ p. record p { stock = p.stock - l.quantity })
        db.products (λ p. refl) b in
    sym (add_back_both l ls db'.products)
    ∙ ap (map (one_back l)) (place-stock io (n + 3) order_id bound ls _ db' kept rest)
    ∙ take_stock-one_back l bound db.products b enough

-- The quantity by which a cancellation of the order raises the stock of a product.
abbrev pub item_quantity : ℕ → ℕ → List OrderItem → ℕ
item_quantity order_id k items = elim (ordered_item order_id k items) [
  | none ↦ 0
  | some i ↦ i.quantity
]

abbrev pub mentions : ℕ → List Line → Bool
mentions k ls = any (λ l. l.product_id == k) ls

-- No product is ordered twice.
abbrev pub Distinct : List Line → Type 0
Distinct [] = Unit
Distinct (l ∷ ls) = (mentions l.product_id ls ≡ false) × Distinct ls

pub ordered-zero : (k : ℕ) (ls : List Line) → mentions k ls ≡ false → ordered k ls ≡ 0
ordered-zero k [] h = refl
ordered-zero k (l ∷ ls) h = ground (arith, ordered-zero k ls)

pub place-items :
    (io : Io) (n order_id k : ℕ) (ls : List Line) (db db' : Db)
    → Distinct ls
    → place io n order_id ls db ≡ ok db'
    → item_quantity order_id k db'.order_items
      ≡ (if mentions k ls then ordered k ls else item_quantity order_id k db.order_items)
unfolding place insert_item
place-items io n order_id k [] db db' d e = ground arith
place-items io n order_id k (l ∷ ls) db db' d e =
    let (price, enough, rest) = place-round io n order_id l ls db db' e in
    let ih = place-items io (n + 3) order_id k ls _ db' d.1 rest in
    elim (Bool-cases (l.product_id == k)) [
      | inl same ↦
          let fresh = subst (λ j. mentions j ls ≡ false) ((==_iff l.product_id k).0 same) d.0 in
          ground (arith, ih, ordered-zero k ls fresh, ==_refl order_id)
      | inr other ↦ ground (arith, ih)
    ]

-- What the loop leaves alone.
pub place-keeps :
    (io : Io) (n order_id : ℕ) (ls : List Line) (db db' : Db)
    → place io n order_id ls db ≡ ok db'
    → (db'.orders ≡ db.orders) × (db'.payments ≡ db.payments) × (db'.outbox ≡ db.outbox)
unfolding place insert_item
place-keeps io n order_id [] db db' e = ground arith
place-keeps io n order_id (l ∷ ls) db db' e =
    let (price, enough, rest) = place-round io n order_id l ls db db' e in
    place-keeps io (n + 3) order_id ls _ db' rest
