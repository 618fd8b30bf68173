-- ===== src/System/Balance.antt =====
-- Where the pieces of a product are: in the stock, or in the orders that stand; the store of
-- order-service/internal/repository/order.go.
use microservice_architectur.Base.{
  ℕ, ◌+◌, ◌≡◌, refl, sym, ap, ◌∙◌, Bool, true, not, ◌&&◌, Option, none, some, List, [], ◌∷◌, ◌==◌,
  if◌then◌else◌, find, any, sum_by, map, arith,
}
use microservice_architectur.Domain.Order.{OrderStatus, OrderItem, Product, same_status}
use microservice_architectur.Store.{Db, OrderRow}
use microservice_architectur.Store.Rows.{Below}
use microservice_architectur.Orders.Create.{Line, has_stock, take_stock}
use microservice_architectur.Orders.Cancel.{give_back_row}
use microservice_architectur.Orders.Stock.{one_back, take_stock-one_back, item_quantity}

abbrev pub is_cancelled : ℕ → List OrderRow → Bool
is_cancelled id os = any (λ o. o.id == id && same_status o.status OrderStatus.cancelled) os

-- What an item holds of the product `k`.
abbrev pub item_holds : List OrderRow → ℕ → OrderItem → ℕ
item_holds os k i = if i.product_id == k && not (is_cancelled i.order_id os) then i.quantity else 0

abbrev pub held : ℕ → List OrderRow → List OrderItem → ℕ
held k os items = sum_by (item_holds os k) items

abbrev pub stock_of : ℕ → List Product → Option ℕ
stock_of k ps = elim (find (λ (p : Product). p.id == k) ps) [ none ↦ none | some p ↦ some p.stock ]

abbrev pub plus : ℕ → Option ℕ → Option ℕ
plus n none = none
plus n (some m) = some (n + m)

-- The stock of the product and what the orders hold of it that are not cancelled; `none` without
-- the product.
abbrev pub balance : ℕ → Db → Option ℕ
balance k db = plus (held k db.orders db.order_items) (stock_of k db.products)

pub plus-plus : (a b : ℕ) (o : Option ℕ) → plus a (plus b o) ≡ plus (b + a) o
plus-plus a b none = refl
plus-plus a b (some m) = ap (λ n. some n) (omega arith)

-- The orders are read for one thing only.
pub held_cong :
    (k : ℕ) (os os' : List OrderRow) (items : List OrderItem)
    → ((id : ℕ) → is_cancelled id os' ≡ is_cancelled id os)
    → held k os' items ≡ held k os items
held_cong k os os' [] same = refl
held_cong k os os' (i ∷ is) same = rw (same i.order_id, held_cong k os os' is same) refl

stock_of-one_back :
    (l : Line) (k : ℕ) (ps : List Product)
    → stock_of k (map (one_back l) ps)
      ≡ plus (if l.product_id == k then l.quantity else 0) (stock_of k ps)
stock_of-one_back l k [] = refl
stock_of-one_back l k (p ∷ ps) = ground (arith, stock_of-one_back l k ps)

-- The stock that a line takes.
pub stock_of-take_stock :
    (l : Line) (k bound : ℕ) (ps : List Product)
    → Below (λ p. p.id) bound ps
    → any (has_stock l) ps ≡ true
    → plus (if l.product_id == k then l.quantity else 0) (stock_of k (take_stock l ps))
      ≡ stock_of k ps
stock_of-take_stock l k bound ps b enough =
    sym (stock_of-one_back l k (take_stock l ps))
    ∙ ap (stock_of k) (take_stock-one_back l bound ps b enough)

-- The stock that a cancellation gives back.
pub stock_of-give_back :
    (id k : ℕ) (items : List OrderItem) (ps : List Product)
    → stock_of k (map (give_back_row id items) ps) ≡ plus (item_quantity id k items) (stock_of k ps)
stock_of-give_back id k items [] = refl
stock_of-give_back id k items (p ∷ ps) = ground (arith, stock_of-give_back id k items ps)
