-- ===== src/System/Created.antt =====
-- The transaction of `createOrder`, order-service/internal/service/order_service.go, and the keys and
-- balances of the store.
use microservice_architectur.Base.{
  ℕ, ◌≡◌, ◌∙◌, Option, none, some, List, Error, ok, Io, arith, Option-cases, Result-cases, transact,
  transact-cases, inl, inr, subst, sym,
}
use microservice_architectur.Store.{Db}
use microservice_architectur.Orders.Create.{
  Line, Created, place, insert_order, sort_lines, create_new, create_order, claim_key,
  existing_order, finish_key, fill_key,
}
use microservice_architectur.Orders.Stock.{Distinct}
use microservice_architectur.Orders.Sorting.{Distinct-sort_lines}
use microservice_architectur.Service.Place.{TxFaults, tx_body, announce, insert_event}
use microservice_architectur.System.Placed.{place-IsPlaced}
use microservice_architectur.System.Made.{
  IsCreated, placed-IsCreated, others, after_others, before_others, same-IsCreated,
}

finish_key-others :
    (fault : Option Error) (key : Option ℕ) (order_id : ℕ) (db db' : Db)
    → finish_key fault key order_id db ≡ ok db'
    → db' ≡ others db'.idempotency_keys db.outbox db
unfolding finish_key fill_key
finish_key-others fault none order_id db db' e = ground arith
finish_key-others fault (some key) order_id db db' e = ground arith

create_new-IsCreated :
    (io : Io) (items : List Line) (key : Option ℕ) (now : ℕ) (db : Db) (c : Created) (db' : Db)
    → Distinct items
    → create_new io items key now db ≡ ok (c, db')
    → IsCreated db db'
unfolding create_new
create_new-IsCreated io items key now db c db' d e =
    elim (Result-cases (place io 4 db.next_id (sort_lines items) (insert_order now db))) [
      | inl (x, failed) ↦ absurd (ground arith)
      | inr (db1, placed) ↦
          let p =
            place-IsPlaced io 4 db.next_id (sort_lines items) (insert_order now db) db1 placed in
          let made =
            placed-IsCreated (sort_lines items) now db db1 (Distinct-sort_lines items d) p in
          let same = finish_key-others (io 3) key db.next_id db1 db' (ground arith) in
          subst (IsCreated db) (sym same) (after_others db'.idempotency_keys db1.outbox db db1 made)
    ]

claim_key-others :
    (key : ℕ) (db : Db) → claim_key key db ≡ others (claim_key key db).idempotency_keys db.outbox db
unfolding claim_key
claim_key-others key db = ground arith

create_order-IsCreated :
    (io : Io) (items : List Line) (key : Option ℕ) (now : ℕ) (db : Db) (c : Created) (db' : Db)
    → Distinct items
    → create_order io items key now db ≡ ok (c, db')
    → IsCreated db db'
unfolding create_order
create_order-IsCreated io items none now db c db' d e =
    create_new-IsCreated io items none now db c db' d e
create_order-IsCreated io items (some key) now db c db' d e =
    let ks = (claim_key key db).idempotency_keys in
    elim (Option-cases (existing_order (io 1) key (claim_key key db))) [
      | inl missing ↦
          let made =
            create_new-IsCreated io items (some key) now (claim_key key db) c db' d
              (ground arith) in
          before_others ks db.outbox db db'
            (subst (λ s. IsCreated s db') (claim_key-others key db) made)
      | inr (id, found) ↦
          let same : claim_key key db ≡ db' = ground arith in
          subst (IsCreated db) (sym (claim_key-others key db) ∙ same)
            (after_others ks db.outbox db db (same-IsCreated db))
    ]

announce-others :
    (fault : Option Error) (c : Created) (db db' : Db)
    → announce fault (c, db) ≡ ok db'
    → db' ≡ others db.idempotency_keys db'.outbox db
unfolding announce insert_event
announce-others fault c db db' e = ground arith

tx_body-IsCreated :
    (f : TxFaults) (lines : List Line) (key : Option ℕ) (now : ℕ) (db db' : Db) (u : Unit {0})
    → Distinct lines
    → tx_body f lines key now db ≡ ok (u, db')
    → IsCreated db db'
unfolding tx_body
tx_body-IsCreated f lines key now db db' u d e =
    elim (Result-cases (create_order f.statements lines key now db)) [
      | inl (x, failed) ↦ absurd (ground arith)
      | inr ((c, db1), made) ↦
          let m = create_order-IsCreated f.statements lines key now db c db1 d made in
          let same = announce-others f.outbox c db1 db' (ground arith) in
          subst (IsCreated db) (sym same) (after_others db1.idempotency_keys db'.outbox db db1 m)
    ]

-- Whatever fails in it, the transaction leaves the store so.
pub tx-IsCreated :
    (f : TxFaults) (lines : List Line) (key : Option ℕ) (now : ℕ) (db : Db)
    → Distinct lines
    → IsCreated db (transact f.begin (tx_body f lines key now) db).1
tx-IsCreated f lines key now db d = elim (transact-cases f.begin (tx_body f lines key now) db) [
  | inl (x, failed) ↦ rw failed (same-IsCreated db)
  | inr (u, db', body, done) ↦ rw done (tx_body-IsCreated f lines key now db db' u d body)
]
