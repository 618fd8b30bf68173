-- ===== src/Service/Orders.antt =====
-- `GetOrders` and `CancelOrder` of order-service/internal/service/order_service.go, on the store of
-- internal/repository/order.go.
use microservice_architectur.Base.{
  ℕ, zero, suc, Bool, Option, none, some, List, ltb, if◌then◌else◌, Error, Result, ok, err, Io,
}
use microservice_architectur.Domain.Order.{Order, OrderStatus, OrderCursor}
use microservice_architectur.Domain.Order
use microservice_architectur.Store.{Db}
use microservice_architectur.Orders.Read.{get_order_by_id}
use microservice_architectur.Orders.Read
use microservice_architectur.Orders.Cancel
use microservice_architectur.Service.Place.{ℤ, pos, negsuc}

abbrev pub default_limit : ℕ
default_limit = 50

abbrev pub max_limit : ℕ
max_limit = 100

-- The limit that the store is asked with.
unfoldable pub clamp_limit : ℤ → ℕ
clamp_limit (negsuc n) = default_limit
clamp_limit (pos zero) = default_limit
clamp_limit (pos (suc n)) = if ltb max_limit (suc n) then max_limit else suc n

-- GetOrders
unfoldable pub get_orders :
    Io → ℤ → Option OrderCursor → Db → Result (List Order × Option OrderCursor)
unfolding clamp_limit
get_orders io limit cursor db = Read.get_orders io (clamp_limit limit) cursor db

-- CancelOrder: `read` fails the queries that look at the order first. Between them and the
-- transaction the store may change; it is `db'` then.
unfoldable pub cancel_order : Io → Io → ℕ → ℕ → Db → Db → Result (ℕ × List ℕ) × Db
cancel_order read io id now db db' = elim (get_order_by_id read id db) [
  | err e ↦ (err e, db')
  | ok o ↦
      if Order.same_status o.status OrderStatus.cancelled
      then (err Error.order_already_cancelled, db')
      else Cancel.cancel_order io id now db'
]

-- CreateOrder: `place` is createOrder. With a key, the caller is alone under it or leads the others,
-- who get its result; `left` is the error of its own context, if that ends before the work does.
unfoldable pub create_order {ℓ} :
    {S : Type ℓ}
    → (Option ℕ → S → Result (ℕ × Bool) × S)
    → Option Error
    → Option ℕ
    → S
    → Result (ℕ × Bool) × S
create_order place left none s = place none s
create_order place left (some key) s =
    let (r, s') = place (some key) s in (elim left [ none ↦ r | some e ↦ err e ], s')
