-- ===== src/Orders/Read.antt =====
-- `GetOrderByID` and `GetOrders` of order-service/internal/repository/order.go.
--
-- The tables have their newest row first, so ORDER BY id DESC is their order and ORDER BY id is read
-- from the end. `Io` numbers the queries; a failure while their rows are read counts as theirs.
use microservice_architectur.Base.{
  ℕ, Bool, true, Option, none, some, List, [], ◌∷◌, ◌==◌, ltb, if◌then◌else◌, find, select, take,
  length, oldest_first, map, Error, Result, ok, ◌>>=◌, ◌>>◌, Io, attempt, or_fail,
}
use microservice_architectur.Domain.Order.{Order, OrderItem, OrderCursor}
use microservice_architectur.Store.{Db, OrderRow}

-- The order with its items, in the order of the list that is given.
abbrev pub with_items : List OrderItem → OrderRow → Order
with_items items o = record {
  id = o.id;
  status = o.status;
  created_at = o.created_at;
  items = items;
}

-- The items of an order in the order of the table, and by id.
abbrev pub items_of : ℕ → Db → List OrderItem
items_of id db = select (λ i. i.order_id == id) db.order_items

-- GetOrderByID; its second query has no ORDER BY.
unfoldable pub get_order_by_id : Io → ℕ → Db → Result Order
get_order_by_id io id db = do
  attempt (io 0)
  o ← or_fail (find (λ (o : OrderRow). o.id == id) db.orders) Error.order_not_found
  attempt (io 1)
  ok (with_items (items_of id db) o)

-- WHERE id < $1, for a cursor that is given and positive.
abbrev pub is_after : Option OrderCursor → OrderRow → Bool
is_after none o = true
is_after (some c) o = if ltb 0 c.after_id then ltb o.id c.after_id else true

-- SELECT id, status, created_at FROM orders ... ORDER BY id DESC LIMIT
unfoldable pub order_page : ℕ → Option OrderCursor → Db → List OrderRow
order_page limit cursor db = take limit (select (is_after cursor) db.orders)

-- An order of a page; its items are ordered by id.
unfoldable pub listed_order : Db → OrderRow → Order
listed_order db o = with_items (oldest_first (items_of o.id db) []) o

-- `orders[len(orders)-1]`
abbrev pub last {ℓ} : {A : Type ℓ} → A → List A → A
last x [] = x
last x (y ∷ ys) = last y ys

-- The cursor to the next page, for a page that is not empty.
unfoldable pub next_cursor : ℕ → OrderRow → List OrderRow → Option OrderCursor
next_cursor limit o os =
    if length (o ∷ os) == limit
    then some (record { after_id = (last o os).id; created_at = (last o os).created_at })
    else none

-- What GetOrders does behind its first query.
unfoldable pub fill_page :
    Option Error → ℕ → List OrderRow → Db → Result (List Order × Option OrderCursor)
unfolding next_cursor listed_order
fill_page fault limit [] db = ok ([], none)
fill_page fault limit (o ∷ os) db =
    attempt fault >> ok (map (listed_order db) (o ∷ os), next_cursor limit o os)

-- GetOrders
unfoldable pub get_orders :
    Io → ℕ → Option OrderCursor → Db → Result (List Order × Option OrderCursor)
unfolding order_page fill_page
get_orders io limit cursor db =
    attempt (io 0) >> fill_page (io 1) limit (order_page limit cursor db) db
