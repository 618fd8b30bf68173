-- ===== src/Service/Place.antt =====
-- `createOrder` of order-service/internal/service/order_service.go, with the transaction of
-- order-service/internal/txm/txm.go around each call and the retries of internal/retry around them
-- all, and the `Insert` of order-service/internal/repository/outbox.go.
--
-- Of a quantity, an int, the sign is kept; ids of products are natural numbers, as the sequence
-- gives them out. What is sent to Kafka behind the
-- commit is a list of order ids; an error of the producer is only logged.
pub mod Calls
pub mod Announced
use microservice_architectur.Base.{
  ℕ, zero, suc, Bool, true, false, not, ◌&&◌, ◌||◌, Option, none, some, List, [], ◌∷◌, ◌==◌,
  if◌then◌else◌, any, Error, Result, ok, err, ◌>>=◌, ◌>>◌, Io, attempt, reject_if, transact,
}
use microservice_architectur.Store.{Db, OutboxEvent}
use microservice_architectur.Orders.Create.{Line, Created, create_order}
use microservice_architectur.Retry.{Outcome, do_}

pub data ℤ : Type 0 where
  pos negsuc : ℕ → ℤ

pub record CreateOrderItem : Type 0 where
  pub product_id : ℕ
  pub quantity : ℤ

abbrev pub no_items : Error
no_items = Error.opaque 10

abbrev pub bad_quantity : Error
bad_quantity = Error.opaque 11

abbrev pub duplicate_product : Error
duplicate_product = Error.opaque 12

-- `item.Quantity <= 0`, or the quantity.
unfoldable pub positive : ℤ → Result ℕ
positive (pos zero) = err bad_quantity
positive (pos (suc n)) = ok (suc n)
positive (negsuc n) = err bad_quantity

-- The loop over the items; `seen` are the products before.
unfoldable pub check_items : List ℕ → List CreateOrderItem → Result (List Line)
unfolding positive
check_items seen [] = ok []
check_items seen (i ∷ is) = do
  quantity ← positive i.quantity
  reject_if (any (λ k. k == i.product_id) seen) duplicate_product
  lines ← check_items (i.product_id ∷ seen) is
  ok (record { product_id = i.product_id; quantity = quantity } ∷ lines)

unfoldable pub validate : List CreateOrderItem → Result (List Line)
unfolding check_items
validate [] = err no_items
validate (i ∷ is) = check_items [] (i ∷ is)

-- What fails in one transaction: its Begin, the statements of CreateOrder, that of the outbox, and
-- the commit.
pub record TxFaults : Type 0 where
  pub begin : Option Error
  pub statements : Io
  pub outbox : Option Error
  pub commit : Option Error

abbrev pub order_created : ℕ
order_created = 1

-- Insert of the outbox
unfoldable pub insert_event : ℕ → ℕ → Db → Db
insert_event aggregate_id event_type db = record db {
  outbox = record { aggregate_id = aggregate_id; event_type = event_type } ∷ db.outbox;
}

-- The function that the transaction runs, behind CreateOrder.
unfoldable pub announce : Option Error → Created × Db → Result Db
unfolding insert_event
announce fault (c, db) =
    if c.exists then ok db else (attempt fault >> ok (insert_event c.order_id order_created db))

-- The store, the variables `orderID` and `exists` that the calls assign, and the number of calls.
pub record World : Type 0 where
  pub db : Db
  pub order_id : ℕ
  pub exists : Bool
  pub calls : ℕ

-- What CreateOrder returns, as the assignment sees it.
abbrev pub assigned : Result (Created × Db) → ℕ × Bool
assigned (ok (c, db)) = (c.order_id, c.exists)
assigned (err e) = (0, false)

-- The transaction's part behind the Begin.
unfoldable pub tx_body : TxFaults → List Line → Option ℕ → ℕ → Db → Result (Unit {0} × Db)
unfolding announce
tx_body f lines key now db = do
  created ← create_order f.statements lines key now db
  db' ← announce f.outbox created
  attempt f.commit
  ok (tt, db')

abbrev pub error_of {ℓ} : {A : Type ℓ} → Result A → Option Error
error_of (ok a) = none
error_of (err e) = some e

-- The function that is retried: `txm.Do`, which assigns the variables if it could begin.
unfoldable pub try_create : (ℕ → TxFaults) → List Line → Option ℕ → ℕ → World → Option Error × World
unfolding tx_body
try_create faults lines key now w =
    let f = faults w.calls in
    let (r, db') = transact f.begin (tx_body f lines key now) w.db in
    let (order_id, exists) = assigned (create_order f.statements lines key now w.db) in
    elim f.begin [
      | some e ↦ (some e, record w { calls = suc w.calls })
      | none ↦ (
        error_of r,
        record { db = db'; order_id = order_id; exists = exists; calls = suc w.calls },
      )
    ]

-- createOrder: the order's id and whether it was there before, or the error; the store; and the
-- orders that are sent by the producer, if there is one.
unfoldable pub place_order :
    Bool
    → (ℕ → TxFaults)
    → (ℕ → Option Error)
    → (ℕ → ℕ)
    → List CreateOrderItem
    → Option ℕ
    → ℕ
    → Db
    → Result (ℕ × Bool) × (Db × List ℕ)
unfolding validate try_create
place_order producer faults waits jitter items key now db = elim (validate items) [
  | err e ↦ (err e, (db, []))
  | ok lines ↦
      let start : World = record { db = db; order_id = 0; exists = false; calls = 0 } in
      let o = do_ (try_create faults lines key now) waits jitter start in
      let w = o.world in
      elim o.result [
        | some e ↦ (err e, (w.db, []))
        | none ↦ (
          ok (w.order_id, w.exists),
          (w.db, if not w.exists && producer then w.order_id ∷ [] else []),
        )
      ]
]
