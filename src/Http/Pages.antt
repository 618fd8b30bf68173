-- ===== src/Http/Pages.antt =====
-- A client that pages through GET /orders: `GetOrders` of order-service/internal/handler/handler.go on
-- the service of internal/service/order_service.go and the store of internal/repository/order.go.
use microservice_architectur.Base.{
  ℕ, zero, suc, ◌<◌, ◌≡◌, refl, sym, ap, ◌∙◌, Bool, false, Option, none, some, List, [], ◌∷◌, ◌++◌,
  map, select, take, length, ltb, All, Error, Result, ok, err, healthy, arith, inl, inr, Bool-cases,
  Result-cases,
}
use mathlib.Core.List.{map-append}
use microservice_architectur.Domain.Order.{Order, OrderCursor}
use microservice_architectur.Store.{Db, OrderRow}
use microservice_architectur.Store.Rows.{Below}
use microservice_architectur.Orders.Read.{
  order_page, fill_page, next_cursor, is_after, last, listed_order,
}
use microservice_architectur.Orders.Read
use microservice_architectur.Orders.Paging.{follow, follow-listed_order}
use microservice_architectur.Service.Place.{ℤ, pos, negsuc}
use microservice_architectur.Service.Orders.{clamp_limit}
use microservice_architectur.Service.Orders
use microservice_architectur.Http.Response.{
  write_value, told, status_text, fixed_text, json, OrderResponse, order_to_response,
}
use microservice_architectur.Http.Requests.{
  AfterId, absent, number, page_of, read_cursor, get_orders, respond,
}

-- The service on a healthy store, which it only reads.
abbrev pub service : ℤ → Option OrderCursor → Db → Result (List Order × Option OrderCursor) × Db
service limit cursor db = (Orders.get_orders healthy limit cursor db, db)

-- A client that asks for page after page, at most `fuel` of them, each time with the `next_after_id`
-- of the page before: the orders that it has been given. Any other answer ends it.
abbrev pub follow_pages : ℕ → ℤ → AfterId → Db → List OrderResponse
follow_pages zero limit after db = []
follow_pages (suc fuel) limit after db = elim (get_orders service limit false after db).0.body [
  | told e ↦ []
  | status_text ↦ []
  | fixed_text ↦ []
  | json page ↦ elim page.next_after_id [
    | none ↦ page.orders
    | some id ↦ page.orders ++ follow_pages fuel limit (number (pos id)) db
  ]
]

clamp_limit-pos : (limit : ℤ) → (m : ℕ) × (clamp_limit limit ≡ suc m)
unfolding clamp_limit
clamp_limit-pos (negsuc n) = (49, refl)
clamp_limit-pos (pos zero) = (49, refl)
clamp_limit-pos (pos (suc n)) = elim (Bool-cases (ltb 100 (suc n))) [
  | inl e ↦ (99, rw e refl)
  | inr e ↦ (n, rw e refl)
]

All-select {ℓ} :
    {A : Type ℓ} (P : A → Type 0) (p : A → Bool) (xs : List A) → All P xs → All P (select p xs)
All-select P p [] h = tt
All-select P p (x ∷ xs) h = elim (Bool-cases (p x)) [
  | inl e ↦ rw e (h.0, All-select P p xs h.1)
  | inr e ↦ rw e (All-select P p xs h.1)
]

All-take {ℓ} : {A : Type ℓ} (P : A → Type 0) (n : ℕ) (xs : List A) → All P xs → All P (take n xs)
All-take P zero xs h = tt
All-take P (suc n) [] h = tt
All-take P (suc n) (x ∷ xs) h = (h.0, All-take P n xs h.1)

All-last {ℓ} : {A : Type ℓ} (P : A → Type 0) (x : A) (xs : List A) → P x → All P xs → P (last x xs)
All-last P x [] p h = p
All-last P x (y ∷ ys) p h = All-last P y ys h.0 h.1

abbrev IsPositive : OrderRow → Type 0
IsPositive o = 0 < o.id

-- The cursor of a page is the id of one of its orders.
fill_page-pos :
    (limit : ℕ) (os : List OrderRow) (db : Db) (page : List Order) (c : OrderCursor)
    → All IsPositive os
    → fill_page none limit os db ≡ ok (page, some c)
    → 0 < c.after_id
unfolding fill_page next_cursor
fill_page-pos limit [] db page c h e = absurd (ground arith)
fill_page-pos limit (o ∷ os) db page c h e = ground (arith, All-last IsPositive o os h.0 h.1)

-- The handler asked with a cursor that the store has given answers the store's page.
get_orders-page :
    (limit : ℤ) (cursor : Option OrderCursor) (after : AfterId) (db : Db) (m : ℕ)
    → clamp_limit limit ≡ suc m
    → read_cursor after ≡ ok cursor
    → (get_orders service limit false after db).0
      ≡ respond (λ p. write_value 200 (page_of p)) (Read.get_orders healthy (suc m) cursor db)
unfolding get_orders Orders.get_orders
get_orders-page limit cursor after db m e r = rw (r, get_orders) (rw e refl)

fill_page-fine :
    (limit : ℕ) (os : List OrderRow) (db : Db) (x : Error) → ¬ (fill_page none limit os db ≡ err x)
unfolding fill_page
fill_page-fine limit [] db x e = ground arith
fill_page-fine limit (o ∷ os) db x e = ground arith

read_cursor-pos :
    (n : ℕ)
    → 0 < n
    → read_cursor (number (pos n)) ≡ ok (some (record { after_id = n; created_at = 0 }))
unfolding read_cursor
read_cursor-pos zero h = absurd (omega arith)
read_cursor-pos (suc n) h = refl

-- A page that is there, behind its first query.
get_orders-fill :
    (m : ℕ) (cursor : Option OrderCursor) (db : Db)
    → Read.get_orders healthy (suc m) cursor db
      ≡ fill_page none (suc m) (order_page (suc m) cursor db) db
unfolding Read.get_orders
get_orders-fill m cursor db = refl

order_page-pos :
    (m : ℕ) (cursor : Option OrderCursor) (db : Db)
    → All IsPositive db.orders
    → All IsPositive (order_page (suc m) cursor db)
unfolding order_page
order_page-pos m cursor db h =
    All-take IsPositive (suc m) (select (is_after cursor) db.orders)
      (All-select IsPositive (is_after cursor) db.orders h)

same_page :
    (m created_at : ℕ) (c : OrderCursor) (db : Db)
    → Read.get_orders healthy
        (suc m)
        (some (record { after_id = c.after_id; created_at = created_at }))
        db
      ≡ Read.get_orders healthy (suc m) (some c) db
unfolding Read.get_orders order_page
same_page m created_at c db = refl

module _ (limit : ℤ) (m : ℕ) (db : Db) (clamped : clamp_limit limit ≡ suc m)
    (positive : All IsPositive db.orders) where
  follow_pages-follow :
      (fuel : ℕ) (after : AfterId) (asked cursor : Option OrderCursor)
      → read_cursor after ≡ ok asked
      → Read.get_orders healthy (suc m) asked db ≡ Read.get_orders healthy (suc m) cursor db
      → follow_pages fuel limit after db ≡ map order_to_response (follow fuel (suc m) cursor db)
  follow_pages-follow zero after asked cursor r same = refl
  follow_pages-follow (suc fuel) after asked cursor r same =
      let answer = get_orders-page limit asked after db m clamped r in
      elim (Result-cases (Read.get_orders healthy (suc m) cursor db)) [
        | inl (x, e) ↦ absurd (
            fill_page-fine (suc m) (order_page (suc m) cursor db) db x
              (sym (get_orders-fill m cursor db) ∙ e))
        | inr ((page, none), e) ↦ rw (answer, follow_pages) (rw same (rw (e, follow) refl))
        | inr ((page, some c), e) ↦
            let positive_id =
              fill_page-pos (suc m) (order_page (suc m) cursor db) db page c
                (order_page-pos m cursor db positive) (sym (get_orders-fill m cursor db) ∙ e) in
            let rest =
              follow_pages-follow fuel (number (pos c.after_id))
                (some (record { after_id = c.after_id; created_at = 0 })) (some c)
                (read_cursor-pos c.after_id positive_id) (same_page m 0 c db) in
            rw (answer, follow_pages)
              (rw same (
                rw (e, follow)
                  (rw rest
                    (sym (map-append order_to_response page (follow fuel (suc m) (some c) db))))))
      ]

-- Paging through GET /orders lists every order exactly once, the newest first, each with its items by
-- id. On a store that does not fail, whose order ids are positive and fall from below a bound: for
-- every limit that a client sends, also a negative or an excessive one, a client that starts without
-- `after_id`, follows `next_after_id` and asks for at most one page more than there are orders is given
-- the whole list of orders, and nothing else.
pub follow_pages-listed_order :
    (limit : ℤ) (fuel bound : ℕ) (db : Db)
    → Below (λ (o : OrderRow). o.id) bound db.orders
    → All (λ (o : OrderRow). 0 < o.id) db.orders
    → length db.orders < fuel
    → follow_pages fuel limit absent db ≡ map order_to_response (map (listed_order db) db.orders)
unfolding read_cursor
follow_pages-listed_order limit fuel bound db sorted positive enough =
    let (m, clamped) = clamp_limit-pos limit in
    follow_pages-follow limit m db clamped positive fuel absent none none refl refl
    ∙ ap (map order_to_response) (follow-listed_order m fuel bound db sorted positive enough)
