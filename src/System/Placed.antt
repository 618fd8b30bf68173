-- ===== src/System/Placed.antt =====
-- `CreateOrder` of order-service/internal/repository/order.go and the balance of a product.
use microservice_architectur.Base.{
  ℕ, suc, ◌+◌, ◌-◌, ◌≤◌, ◌<◌, ◌≡◌, refl, sym, ap, ◌∙◌, true, false, ◌&&◌, List, [], ◌∷◌, ◌==◌,
  if◌then◌else◌, count, any, All, ok, Io, arith, Bool-cases, inl, inr, ==_iff, subst,
}
use microservice_architectur.Domain.Order.{OrderItem}
use microservice_architectur.Store.{Db}
use microservice_architectur.Store.Rows.{Below, Below-update, All-imp, any-false-count}
use microservice_architectur.Orders.Create.{Line, has_stock, take_stock, place, insert_item}
use microservice_architectur.Orders.Stock.{place-round, mentions, Distinct}
use microservice_architectur.System.Balance.{
  is_cancelled, held, stock_of, plus, balance, plus-plus, stock_of-take_stock,
}

-- One round of the loop.
abbrev round : ℕ → Line → ℕ → Db → Db
round order_id l price db =
    insert_item order_id l price (record db { products = take_stock l db.products })

round-balance :
    (order_id k bound price : ℕ) (l : Line) (db : Db)
    → Below (λ p. p.id) bound db.products
    → any (has_stock l) db.products ≡ true
    → is_cancelled order_id db.orders ≡ false
    → balance k (round order_id l price db) ≡ balance k db
unfolding insert_item
round-balance order_id k bound price l db b enough stands =
    let taken = stock_of-take_stock l k bound db.products b enough in
    let more = held k db.orders db.order_items in
    let q = if l.product_id == k then l.quantity else 0 in
    rw stands (elim (Bool-cases (l.product_id == k)) [
      | inl e ↦
          let t = rw e at taken in
          rw e (
            sym (plus-plus more l.quantity (stock_of k (take_stock l db.products)))
            ∙ ap (plus more) t)
      | inr e ↦
          let t = rw e at taken in
          rw e (sym (plus-plus more 0 (stock_of k (take_stock l db.products))) ∙ ap (plus more) t)
    ])

-- The items of a product that the orders hold.
abbrev pub items_of : ℕ → ℕ → List OrderItem → ℕ
items_of order_id k items = count (λ i. i.order_id == order_id && i.product_id == k) items

-- What the loop over the items leaves.
pub record IsPlaced (order_id : ℕ) (ls : List Line) (db db' : Db) : Type 0 where
  pub same_orders : db'.orders ≡ db.orders
  pub same_payments : db'.payments ≡ db.payments
  pub same_events : db'.payment_events ≡ db.payment_events
  pub same_refunds : db'.refunds ≡ db.refunds
  pub grows : db.next_id ≤ db'.next_id
  pub keyed :
      (bound : ℕ) → Below (λ p. p.id) bound db.products → Below (λ p. p.id) bound db'.products
  pub refer :
      All (λ i. i.order_id < db.next_id) db.order_items
      → order_id < db.next_id
      → All (λ i. i.order_id < db'.next_id) db'.order_items
  pub items :
      (o k : ℕ)
      → items_of o k db'.order_items
        ≡ (if order_id == o then count (λ l. l.product_id == k) ls else 0)
          + items_of o k db.order_items
  pub fair :
      (k bound : ℕ)
      → Below (λ p. p.id) bound db.products
      → is_cancelled order_id db.orders ≡ false
      → balance k db' ≡ balance k db

after_round-IsPlaced :
    (order_id price : ℕ) (l : Line) (ls : List Line) (db db' : Db)
    → any (has_stock l) db.products ≡ true
    → IsPlaced order_id ls (round order_id l price db) db'
    → IsPlaced order_id (l ∷ ls) db db'
unfolding insert_item take_stock
after_round-IsPlaced order_id price l ls db db' enough r = record {
  same_orders = r.same_orders;
  same_payments = r.same_payments;
  same_events = r.same_events;
  same_refunds = r.same_refunds;
  grows = omega (arith, r.grows);
  keyed = λ bound b. r.keyed bound (
      Below-update (λ p. p.id) bound (has_stock l) (λ p. record p { stock = p.stock - l.quantity })
        db.products (λ p. refl) b);
  refer = λ h lt.
      r.refer
        (
          omega arith,
          All-imp (λ i. i.order_id < db.next_id) (λ i. i.order_id < suc db.next_id) db.order_items
              (λ i h. omega arith) h,
        )
        (omega arith);
  items = λ o k. ground (arith, r.items o k);
  fair = λ k bound b stands.
      r.fair k bound
        (Below-update (λ p. p.id) bound (has_stock l)
          (λ p. record p { stock = p.stock - l.quantity }) db.products (λ p. refl) b)
        stands
      ∙ round-balance order_id k bound price l db b enough stands;
}

pub place-IsPlaced :
    (io : Io) (n order_id : ℕ) (ls : List Line) (db db' : Db)
    → place io n order_id ls db ≡ ok db'
    → IsPlaced order_id ls db db'
unfolding place
place-IsPlaced io n order_id [] db db' e =
    let same : db ≡ db' = ground arith in
    subst (IsPlaced order_id [] db) same (record {
      same_orders = refl;
      same_payments = refl;
      same_events = refl;
      same_refunds = refl;
      grows = omega arith;
      keyed = λ bound b. b;
      refer = λ h lt. h;
      items = λ o k. ground arith;
      fair = λ k bound b stands. refl;
    })
place-IsPlaced io n order_id (l ∷ ls) db db' e =
    let (price, enough, rest) = place-round io n order_id l ls db db' e in
    after_round-IsPlaced order_id price l ls db db' enough
      (place-IsPlaced io (n + 3) order_id ls (round order_id l price db) db' rest)

pub Distinct-count : (k : ℕ) (ls : List Line) → Distinct ls → count (λ l. l.product_id == k) ls ≤ 1
Distinct-count k [] d = omega arith
Distinct-count k (l ∷ ls) d = elim (Bool-cases (l.product_id == k)) [
  | inl e ↦
      let fresh = subst (λ j. mentions j ls ≡ false) ((==_iff l.product_id k).0 e) d.0 in
      rw e (omega (arith, any-false-count (λ l. l.product_id == k) ls fresh))
  | inr e ↦ rw e (omega (arith, Distinct-count k ls d.1))
]
