-- ===== src/Http/Response.antt =====
-- order-service/internal/handler/errors.go and the bodies of internal/handler/dto.go.
--
-- A body is the value that is encoded. A price is in kopecks where the code prints it with two digits.
use microservice_architectur.Base.{
  ℕ, Bool, false, not, ◌&&◌, Option, none, some, List, map, ◌==◌, if◌then◌else◌, Error,
}
use microservice_architectur.Domain.Order.{Order, OrderItem, OrderStatus, Product}

-- What a client gets: the text of an error, the name of the status, a text that stands in the handler,
-- or a value.
pub data Body {ℓ} (A : Type ℓ) : Type ℓ where
  told : Error → Body A
  status_text : Body A
  fixed_text : Body A
  json : A → Body A

pub record Response {ℓ} (A : Type ℓ) : Type ℓ where
  pub code : ℕ
  pub retry_after : Bool
  pub body : Body A

-- errToStatus; an error that it lacks is `none`.
unfoldable pub err_to_status : Error → Option ℕ
err_to_status Error.order_not_found = some 404
err_to_status Error.product_not_found = some 404
err_to_status Error.insufficient_stock = some 409
err_to_status Error.invalid_status_transition = some 409
err_to_status Error.order_already_cancelled = some 409
err_to_status Error.invalid_cursor = some 400
err_to_status Error.offset_not_supported = some 400
err_to_status Error.payment_declined = some 402
err_to_status Error.payment_already_active = some 409
err_to_status Error.payment_transition = some 409
err_to_status Error.payment_not_found = some 404
err_to_status Error.payment_in_progress = some 409
err_to_status Error.deadline_exceeded = some 503
err_to_status e = none

-- `status`: 500 for an error that the map lacks.
unfoldable pub status_of : Error → ℕ
unfolding err_to_status
status_of e = elim (err_to_status e) [ none ↦ 500 | some code ↦ code ]

-- writeError
unfoldable pub write_error {ℓ} : {A : Type ℓ} → Error → Response A
unfolding status_of
write_error e = record {
  code = status_of e;
  retry_after = status_of e == 503;
  body = if not (status_of e == 500) && not (status_of e == 503) then told e else status_text;
}

-- A value behind its status; the encoding of these values does not fail.
abbrev pub write_value {ℓ} : {A : Type ℓ} → ℕ → A → Response A
write_value code a = record { code = code; retry_after = false; body = json a }

pub record OrderItemResponse : Type 0 where
  pub product_id : ℕ
  pub quantity : ℕ
  pub price : ℕ

pub record OrderResponse : Type 0 where
  pub id : ℕ
  pub status : OrderStatus
  pub created_at : ℕ
  pub items : List OrderItemResponse

pub record ProductResponse : Type 0 where
  pub id : ℕ
  pub name : ℕ
  pub price : ℕ
  pub stock : ℕ

-- One item of orderToResponse.
abbrev pub item_to_response : OrderItem → OrderItemResponse
item_to_response i = record { product_id = i.product_id; quantity = i.quantity; price = i.price }

-- orderToResponse
unfoldable pub order_to_response : Order → OrderResponse
order_to_response o = record {
  id = o.id;
  status = o.status;
  created_at = o.created_at;
  items = map item_to_response o.items;
}

-- productToResponse
unfoldable pub product_to_response : Product → ProductResponse
product_to_response p = record { id = p.id; name = p.name; price = p.price; stock = p.stock }
