-- ===== src/Http/Requests.antt =====
-- The handlers of order-service/internal/handler/handler.go and of internal/handler/payment.go.
--
-- What gorilla/mux, net/http, strconv and encoding/json make of a request is an argument: an id is
-- `none` where `Atoi` fails. The service behind a handler is an argument as well, a function from a
-- state to a result and the state after it.
use microservice_architectur.Base.{
  ℕ, zero, suc, Bool, true, false, ◌||◌, Option, none, some, List, map, ltb, ◌==◌, length,
  if◌then◌else◌, Error, Result, ok, err,
}
use microservice_architectur.Domain.Order.{Order, OrderCursor, Product}
use microservice_architectur.Service.Place.{ℤ, pos, negsuc, CreateOrderItem}
use microservice_architectur.Http.Response.{
  fixed_text, Response, write_error, write_value, OrderResponse, ProductResponse, order_to_response,
  product_to_response,
}

-- The answer to a result: the value with this status, or the error.
abbrev pub respond {ℓ κ} : {A : Type ℓ} {B : Type κ} → (A → Response B) → Result A → Response B
respond show (ok a) = show a
respond show (err e) = write_error e

-- The errors of CreateOrder's two checks, which no map knows.
abbrev pub invalid_body : Error
invalid_body = Error.opaque 30

abbrev pub bad_item_count : Error
bad_item_count = Error.opaque 31

-- The body of POST /orders, as the decoder leaves it.
pub data Decoded : Type 0 where
  too_large malformed : Decoded
  items : List CreateOrderItem → Decoded

-- The texts of `after_id`.
pub data AfterId : Type 0 where
  absent unreadable : AfterId
  number : ℤ → AfterId

pub record OrdersPage : Type 0 where
  pub orders : List OrderResponse
  pub next_after_id : Option ℕ

-- What CreateOrder answers behind the service.
abbrev pub created : ℕ × Bool → Response ℕ
created (id, exists) = write_value (if exists then 200 else 201) id

-- `after_id`, which must be a positive number if it is given.
unfoldable pub read_cursor : AfterId → Result (Option OrderCursor)
read_cursor absent = ok none
read_cursor unreadable = err Error.invalid_cursor
read_cursor (number (pos zero)) = err Error.invalid_cursor
read_cursor (number (pos (suc n))) = ok (some (record { after_id = suc n; created_at = 0 }))
read_cursor (number (negsuc n)) = err Error.invalid_cursor

-- The body of a page.
abbrev pub page_of : List Order × Option OrderCursor → OrdersPage
page_of (orders, next) = record {
  orders = map order_to_response orders;
  next_after_id = elim next [ none ↦ none | some c ↦ some c.after_id ];
}

module _ {ℓ} {S : Type ℓ} where
  -- GetProducts
  unfoldable pub get_products :
      (S → Result (List Product) × S) → S → Response (List ProductResponse) × S
  get_products service s =
      let (r, s') = service s in
      (respond (λ ps. write_value 200 (map product_to_response ps)) r, s')

  -- GetProductByID
  unfoldable pub get_product_by_id :
      (ℕ → S → Result Product × S) → Option ℕ → S → Response ProductResponse × S
  get_product_by_id service none s = (write_error Error.product_not_found, s)
  get_product_by_id service (some id) s =
      let (r, s') = service id s in (respond (λ p. write_value 200 (product_to_response p)) r, s')

  -- CreateOrder
  unfoldable pub create_order :
      (List CreateOrderItem → Option ℕ → S → Result (ℕ × Bool) × S)
      → Decoded
      → Option ℕ
      → S
      → Response ℕ × S
  create_order service too_large key s =
      (record { code = 413; retry_after = false; body = fixed_text }, s)
  create_order service malformed key s = (write_error invalid_body, s)
  create_order service (items is) key s =
      if length is == 0 || ltb 100 (length is)
      then (write_error bad_item_count, s)
      else let (r, s') = service is key s in (respond created r, s')

  -- GetOrders; `limit` is what `Atoi` leaves behind, whose error is not looked at, and `has_offset`
  -- says that `offset` is not empty.
  unfoldable pub get_orders :
      (ℤ → Option OrderCursor → S → Result (List Order × Option OrderCursor) × S)
      → ℤ
      → Bool
      → AfterId
      → S
      → Response OrdersPage × S
  unfolding read_cursor
  get_orders service limit true after s = (write_error Error.offset_not_supported, s)
  get_orders service limit false after s = elim (read_cursor after) [
    | err e ↦ (write_error e, s)
    | ok cursor ↦
        let (r, s') = service limit cursor s in (respond (λ p. write_value 200 (page_of p)) r, s')
  ]

  -- GetOrderByID
  unfoldable pub get_order_by_id :
      (ℕ → S → Result Order × S) → Option ℕ → S → Response OrderResponse × S
  get_order_by_id service none s = (write_error Error.order_not_found, s)
  get_order_by_id service (some id) s =
      let (r, s') = service id s in (respond (λ o. write_value 200 (order_to_response o)) r, s')

  -- CancelOrder
  unfoldable pub cancel_order : (ℕ → S → Result ℕ × S) → Option ℕ → S → Response ℕ × S
  cancel_order service none s = (write_error Error.order_not_found, s)
  cancel_order service (some id) s =
      let (r, s') = service id s in (respond (λ i. write_value 200 i) r, s')

  -- Pay: the charge's id in the answer, "" being `none`.
  unfoldable pub pay : (ℕ → S → Result (Option ℕ) × S) → Option ℕ → S → Response (ℕ × Option ℕ) × S
  pay service none s = (write_error Error.order_not_found, s)
  pay service (some id) s =
      let (r, s') = service id s in (respond (λ charge_id. write_value 200 (id, charge_id)) r, s')
