-- ===== src/Service/Place/Announced.antt =====
-- The transactional outbox of `createOrder`, order-service/internal/service/order_service.go.
use microservice_architectur.Base.{
  ℕ, ◌≡◌, refl, true, false, Bool, Option, none, some, List, [], ◌∷◌, ◌++◌, map, Error, ok, Io,
  arith, inl, inr, ◌⊎◌, transact, transact-cases, Result-cases, Option-cases,
}
use microservice_architectur.Store.{Db, OrderRow, OutboxEvent}
use microservice_architectur.Orders.Create.{
  Line, Created, create_order, create_new, place, sort_lines, insert_order, claim_key,
  existing_order, finish_key,
}
use microservice_architectur.Orders.Stock.{place-keeps}
use microservice_architectur.Service.Place.Calls.{place_order-keeps}
use microservice_architectur.Service.Place.{
  CreateOrderItem, TxFaults, insert_event, announce, tx_body, place_order,
}

abbrev pub order_ids : Db → List ℕ
order_ids db = map (λ (o : OrderRow). o.id) db.orders

abbrev pub announced_ids : Db → List ℕ
announced_ids db = map (λ (e : OutboxEvent). e.aggregate_id) db.outbox

-- Since the store `db0`, the outbox has got one event for each new order, in their order.
abbrev pub IsAnnounced : Db → Db → Type 0
IsAnnounced db0 db =
    (new : List ℕ) × (order_ids db ≡ new ++ order_ids db0)
    × (announced_ids db ≡ new ++ announced_ids db0)

-- What CreateOrder adds to the orders; it leaves the outbox alone.
abbrev Adds : Created → Db → Db → Type 0
Adds c db db' =
    (db'.outbox ≡ db.outbox)
    × (((c.exists ≡ true) × (db'.orders ≡ db.orders))
        ⊎ ((c.exists ≡ false)
            × (map (λ (o : OrderRow). o.id) db'.orders
                ≡ c.order_id ∷ map (λ (o : OrderRow). o.id) db.orders)))

create_new-Adds :
    (io : Io) (items : List Line) (key : Option ℕ) (now : ℕ) (db db' : Db) (c : Created)
    → create_new io items key now db ≡ ok (c, db')
    → Adds c db db'
unfolding create_new insert_order finish_key
create_new-Adds io items key now db db' c e =
    elim (Result-cases (place io 4 db.next_id (sort_lines items) (insert_order now db))) [
      | inl (x, failed) ↦ absurd (ground arith)
      | inr (db1, placed) ↦
          let (orders, payments, outbox) =
            place-keeps io 4 db.next_id (sort_lines items) (insert_order now db) db1 placed in
          ground arith
    ]

claim_key-same :
    (key : ℕ) (db : Db)
    → ((claim_key key db).orders ≡ db.orders) × ((claim_key key db).outbox ≡ db.outbox)
unfolding claim_key
claim_key-same key db = ground arith

create_order-Adds :
    (io : Io) (items : List Line) (key : Option ℕ) (now : ℕ) (db db' : Db) (c : Created)
    → create_order io items key now db ≡ ok (c, db')
    → Adds c db db'
unfolding create_order
create_order-Adds io items none now db db' c e = create_new-Adds io items none now db db' c e
create_order-Adds io items (some key) now db db' c e =
    let (orders, outbox) = claim_key-same key db in
    elim (Option-cases (existing_order (io 1) key (claim_key key db))) [
      | inl missing ↦
          let adds =
            create_new-Adds io items (some key) now (claim_key key db) db' c (ground arith) in
          ground (arith, orders, outbox, adds)
      | inr (id, found) ↦ ground (arith, orders, outbox)
    ]

announce-IsAnnounced :
    (fault : Option Error) (c : Created) (db0 db db1 db' : Db)
    → Adds c db db1
    → IsAnnounced db0 db
    → announce fault (c, db1) ≡ ok db'
    → IsAnnounced db0 db'
unfolding announce insert_event
announce-IsAnnounced fault c db0 db db1 db' (unread, inl (there, same)) (new, os, es) e =
    (new, ground arith, ground arith)
announce-IsAnnounced fault c db0 db db1 db' (unread, inr (fresh, more)) (new, os, es) e =
    (c.order_id ∷ new, ground arith, ground arith)

tx_body-IsAnnounced :
    (f : TxFaults) (lines : List Line) (key : Option ℕ) (now : ℕ) (db0 db db' : Db) (u : Unit {0})
    → IsAnnounced db0 db
    → tx_body f lines key now db ≡ ok (u, db')
    → IsAnnounced db0 db'
unfolding tx_body
tx_body-IsAnnounced f lines key now db0 db db' u v e =
    elim (Result-cases (create_order f.statements lines key now db)) [
      | inl (x, failed) ↦ absurd (ground arith)
      | inr ((c, db1), made) ↦ elim (Result-cases (announce f.outbox (c, db1))) [
        | inl (x, failed) ↦ absurd (ground arith)
        | inr (db2, announced) ↦
            let adds = create_order-Adds f.statements lines key now db db1 c made in
            let kept = announce-IsAnnounced f.outbox c db0 db db1 db2 adds v announced in
            ground arith
      ]
    ]

tx-IsAnnounced :
    (f : TxFaults) (lines : List Line) (key : Option ℕ) (now : ℕ) (db0 db : Db)
    → IsAnnounced db0 db
    → IsAnnounced db0 (transact f.begin (tx_body f lines key now) db).1
tx-IsAnnounced f lines key now db0 db v =
    elim (transact-cases f.begin (tx_body f lines key now) db) [
      | inl (x, failed) ↦ rw failed v
      | inr (u, db', body, done) ↦ rw done (tx_body-IsAnnounced f lines key now db0 db db' u v body)
    ]

-- The transactional outbox. Over any call of `createOrder`, for any items and any key, with any
-- failures of the statements, the commits and the retries, the orders and the outbox grow by the same
-- ids in the same order: no new order is left without its event, none gets two, and no event stands
-- for an order that was rolled back.
pub place_order-IsAnnounced :
    (producer : Bool) (faults : ℕ → TxFaults) (waits : ℕ → Option Error) (jitter : ℕ → ℕ)
    (items : List CreateOrderItem) (key : Option ℕ) (now : ℕ) (db : Db)
    → IsAnnounced db (place_order producer faults waits jitter items key now db).1.0
place_order-IsAnnounced producer faults waits jitter items key now db =
    place_order-keeps (IsAnnounced db) producer faults waits jitter items key now db
      (λ lines f d valid v. tx-IsAnnounced f lines key now db d v) ([], refl, refl)
