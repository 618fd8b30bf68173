-- ===== src/Service/Place/Calls.antt =====
-- `createOrder` of order-service/internal/service/order_service.go as a sequence of transactions, and
-- the items that it lets through.
use microservice_architectur.Base.{
  ℕ, ◌≡◌, refl, sym, subst, true, false, Bool, Option, List, [], ◌∷◌, ◌==◌, any, Error, ok, arith,
  inl, inr, transact, Result-cases, Option-cases,
}
use microservice_architectur.Store.{Db}
use microservice_architectur.Orders.Create.{Line}
use microservice_architectur.Orders.Stock.{Distinct, mentions}
use microservice_architectur.Retry.{do_}
use microservice_architectur.Retry.Bounds.{do_-keeps}
use microservice_architectur.Service.Place.{
  CreateOrderItem, TxFaults, World, tx_body, try_create, place_order, validate, check_items,
  positive,
}

try_create-db :
    (faults : ℕ → TxFaults) (lines : List Line) (key : Option ℕ) (now : ℕ) (w : World)
    → (try_create faults lines key now w).1.db
      ≡ (transact (faults w.calls).begin (tx_body (faults w.calls) lines key now) w.db).1
unfolding try_create
try_create-db faults lines key now w = ground arith

-- What each of its transactions keeps, `createOrder` keeps.
pub place_order-keeps {κ} :
    (P : Db → Type κ) (producer : Bool) (faults : ℕ → TxFaults) (waits : ℕ → Option Error)
    (jitter : ℕ → ℕ) (items : List CreateOrderItem) (key : Option ℕ) (now : ℕ) (db : Db)
    → ((lines : List Line) (f : TxFaults) (d : Db)
        → validate items ≡ ok lines
        → P d
        → P (transact f.begin (tx_body f lines key now) d).1)
    → P db
    → P (place_order producer faults waits jitter items key now db).1.0
unfolding place_order
place_order-keeps P producer faults waits jitter items key now db keeps p =
    elim (Result-cases (validate items)) [
      | inl (e, failed) ↦ rw (failed, place_order) p
      | inr (lines, valid) ↦
          rw (valid, place_order)
            (let start : World = record { db = db; order_id = 0; exists = false; calls = 0 } in
              let kept =
                do_-keeps (λ (w : World). P w.db) (try_create faults lines key now)
                  (λ w q.
                    subst P (sym (try_create-db faults lines key now w))
                      (keeps lines (faults w.calls) w.db valid q))
                  waits jitter start p in
              elim (Option-cases
                (do_ (try_create faults lines key now) waits jitter start).result) [
                  | inl done ↦ rw done kept
                  | inr (e, failed) ↦ rw failed kept
                ])
    ]

check_items-Distinct :
    (seen : List ℕ) (items : List CreateOrderItem) (lines : List Line)
    → check_items seen items ≡ ok lines
    → Distinct lines × ((k : ℕ) → any (λ j. j == k) seen ≡ true → mentions k lines ≡ false)
unfolding check_items
check_items-Distinct seen [] lines e =
    let same : [] ≡ lines = ground arith in
    subst (λ ls. Distinct ls × ((k : ℕ) → any (λ j. j == k) seen ≡ true → mentions k ls ≡ false))
      same (tt, λ k h. refl)
check_items-Distinct seen (i ∷ is) lines e = elim (Result-cases (positive i.quantity)) [
  | inl (x, failed) ↦ absurd (ground arith)
  | inr (quantity, fine) ↦ elim (Result-cases (check_items (i.product_id ∷ seen) is)) [
    | inl (x, failed) ↦ absurd (ground arith)
    | inr (rest, checked) ↦
        let (distinct, apart) = check_items-Distinct (i.product_id ∷ seen) is rest checked in
        let same : record { product_id = i.product_id; quantity = quantity } ∷ rest ≡ lines =
          ground arith in
        let new : any (λ j. j == i.product_id) seen ≡ false = ground arith in
        subst
          (λ ls. Distinct ls × ((k : ℕ) → any (λ j. j == k) seen ≡ true → mentions k ls ≡ false))
          same ((apart i.product_id (ground arith), distinct), λ k old. ground (arith, apart k))
  ]
]

-- The lines that come through name no product twice.
pub validate-Distinct :
    (items : List CreateOrderItem) (lines : List Line) → validate items ≡ ok lines → Distinct lines
unfolding validate
validate-Distinct [] lines e = absurd (ground arith)
validate-Distinct (i ∷ is) lines e = (check_items-Distinct [] (i ∷ is) lines e).0
