-- ===== src/Tests/Orders.antt =====
-- Runs of the orders, the idempotency keys and the state machines at concrete inputs.
use microservice_architectur.Base.{
  ℕ, zero, ◌+◌, ◌≡◌, ◌↔◌, refl, true, false, none, some, List, [], ◌∷◌, map, Error, ok, healthy,
  arith, PgCode,
}
use microservice_architectur.Domain.Order.{OrderStatus, can_transition}
use microservice_architectur.Domain.Payment.{PaymentStatus, can_transition_payment}
use microservice_architectur.Domain.Lifecycle.{
  OrderArrow, PaymentArrow, can_transition-OrderArrow, can_transition_payment-PaymentArrow,
}
use microservice_architectur.Store.{Db}
use microservice_architectur.Orders.Create.{
  Line, Created, create_order, place, take_stock, insert_item, sort_lines,
}
use microservice_architectur.Orders.Cancel.{cancel_order, returned, set_cancelled}
use microservice_architectur.Orders.Stock.{add_back, place-stock}
use microservice_architectur.Orders.Roundtrip.{IsKeyed, cancel-create_order}
use microservice_architectur.Service.Place.{pos, TxFaults, place_order}
use microservice_architectur.Service.Place.Announced.{IsAnnounced, place_order-IsAnnounced}
use microservice_architectur.Idempotency.{claim, complete, fresh_row, owned}
use microservice_architectur.Idempotency.Exec.{
  Weather, StoredResponse, exec_idempotent, json_response,
}
use microservice_architectur.Idempotency.Lease.{IsRefused, claim-exclusive}
use microservice_architectur.Idempotency.Replay.{exec_idempotent-once}

can_transition-OrderArrow_example :
    (can_transition OrderStatus.paid OrderStatus.shipped ≡ true)
    ↔ OrderArrow OrderStatus.paid OrderStatus.shipped
can_transition-OrderArrow_example = can_transition-OrderArrow OrderStatus.paid OrderStatus.shipped

can_transition_payment-PaymentArrow_example :
    (can_transition_payment PaymentStatus.succeeded PaymentStatus.refunded ≡ true)
    ↔ PaymentArrow PaymentStatus.succeeded PaymentStatus.refunded
can_transition_payment-PaymentArrow_example =
    can_transition_payment-PaymentArrow PaymentStatus.succeeded PaymentStatus.refunded

abbrev pub two_products : Db
two_products = record {
  orders = [];
  order_items = [];
  products =
      record { id = 2; name = 0; price = 30; stock = 8 }
      ∷ record { id = 1; name = 0; price = 10; stock = 5 }
      ∷ [];
  payments = [];
  payment_events = [];
  refunds = [];
  idempotency_keys = [];
  outbox = [];
  next_id = 7;
}

two_products-IsKeyed : IsKeyed two_products
two_products-IsKeyed = record {
  bound = 3;
  products_keyed = (omega arith, (omega arith, tt));
  items_refer = tt;
  payments_refer = tt;
}

abbrev two_lines : List Line
two_lines = record { product_id = 2; quantity = 3 } ∷ record { product_id = 1; quantity = 5 } ∷ []

-- The store behind the placing of the two lines as order 6.
abbrev two_sold : Db
two_sold = record two_products {
  order_items =
      record { id = 8; order_id = 6; product_id = 1; quantity = 5; price = 10 }
      ∷ record { id = 7; order_id = 6; product_id = 2; quantity = 3; price = 30 }
      ∷ [];
  products =
      record { id = 2; name = 0; price = 30; stock = 5 }
      ∷ record { id = 1; name = 0; price = 10; stock = 0 }
      ∷ [];
  next_id = 9;
}

place-stock_example : map (add_back two_lines) two_sold.products ≡ two_products.products
unfolding place take_stock insert_item
place-stock_example =
    place-stock healthy 4 6 3 two_lines two_products two_sold (omega arith, (omega arith, tt)) refl

-- The order 7 with the key 55.
abbrev new_order : Created
new_order = record { order_id = 7; exists = false; invalidated = 1 ∷ 2 ∷ [] }

abbrev one_order : Db
one_order = record two_sold {
  orders = record { id = 7; status = OrderStatus.pending; created_at = 100 } ∷ [];
  order_items =
      record { id = 9; order_id = 7; product_id = 2; quantity = 3; price = 30 }
      ∷ record { id = 8; order_id = 7; product_id = 1; quantity = 5; price = 10 }
      ∷ [];
  idempotency_keys = record { key = 55; order_id = 7 } ∷ [];
  next_id = 10;
}

cancel-create_order_example :
    ((cancel_order healthy 7 200 one_order).0 ≡ ok (7, returned 7 (set_cancelled 7 one_order)))
    × ((cancel_order healthy 7 200 one_order).1.products ≡ two_products.products)
unfolding create_order place sort_lines
cancel-create_order_example =
    cancel-create_order healthy two_lines (some 55) 100 200 two_products new_order one_order
      two_products-IsKeyed (refl, (refl, tt)) refl refl

-- The first transaction fails at its commit, the next one goes through.
abbrev pub late_commit : ℕ → TxFaults
late_commit zero = record {
  begin = none;
  statements = healthy;
  outbox = none;
  commit = some (Error.pg PgCode.serialization_failure);
}
late_commit _ = record { begin = none; statements = healthy; outbox = none; commit = none }

place_order-IsAnnounced_example :
    IsAnnounced two_products
      (place_order true late_commit
        (λ k. none)
        (λ k. 0)
        (record { product_id = 1; quantity = pos 2 } ∷ [])
        none
        100
        two_products).1.0
place_order-IsAnnounced_example =
    place_order-IsAnnounced true late_commit (λ k. none) (λ k. 0)
      (record { product_id = 1; quantity = pos 2 } ∷ []) none 100 two_products

claim-exclusive_example :
    let (answer, rows'') = claim healthy false 55 12 1010 (fresh_row 55 11 1000 ∷ []) in
    (rows'' ≡ fresh_row 55 11 1000 ∷ []) × IsRefused answer
unfolding claim
claim-exclusive_example =
    claim-exclusive healthy false 55 11 1000 [] (fresh_row 55 11 1000 ∷ []) owned
      (fresh_row 55 11 1000) refl refl refl healthy false 12 1010 (omega arith) (omega arith)

abbrev weather_at : ℕ → Weather
weather_at now = record {
  io = healthy;
  vanished = false;
  now = now;
  finish_fault = none;
  finished = now;
}

abbrev a_text : ℕ → List ℕ
a_text code = []

-- A handler that counts its calls.
abbrev a_handler : ℕ → (ℕ × List ℕ) × ℕ
a_handler n = ((200, 7 ∷ []), n + 1)

exec_idempotent-once_example :
    let answer : StoredResponse = record { code = 200; body = 7 ∷ []; retry_after = false } in
    let done = (complete none 55 200 (7 ∷ []) (fresh_row 55 11 1000 ∷ [])).1 in
    (exec_idempotent a_text a_handler (weather_at 1000) 55 11 [] 0 ≡ (answer, done, 1))
    × (exec_idempotent a_text a_handler (weather_at 2000) 55 11 done 1 ≡ (answer, done, 1))
    × (exec_idempotent a_text a_handler (weather_at 2000) 55 12 done 1
        ≡ (json_response 422 a_text false, done, 1))
unfolding claim
exec_idempotent-once_example =
    exec_idempotent-once a_text a_handler (weather_at 1000) (weather_at 2000) 55 11 12 200 (7 ∷ [])
      [] (fresh_row 55 11 1000 ∷ []) 0 1 owned (fresh_row 55 11 1000) refl refl refl refl
      (omega arith) refl refl refl refl refl (omega arith) refl
