-- ===== src/System/Effect.antt =====
-- What the committed transactions of order-service do to the store, of three kinds: making an order,
-- cancelling one, and the changes on the payments' side (Payments/Change.antt).
use microservice_architectur.Base.{ℕ, ◌≡◌, List, Io, ok, inl, inr, transact-cases}
use microservice_architectur.Store.{Db}
use microservice_architectur.Orders.Cancel.{cancel_order, cancel_body}
use microservice_architectur.Payments.Change.{Change, Changes, here, next}
use microservice_architectur.System.Made.{IsCreated}

pub data Effect (db : Db) (db' : Db) : Type 0 where
  changed : Change db db' → Effect db db'
  created : IsCreated db db' → Effect db db'
  called_off :
      (io : Io) (id now : ℕ) (answer : ℕ × List ℕ)
      → cancel_body io id now db ≡ ok (answer, db')
      → Effect db db'

pub data Effects (db : Db) : Db → Type 0 where
  none_yet : Effects db db
  then : {mid db' : Db} → Effects db mid → Effect mid db' → Effects db db'

-- What each effect keeps, a sequence of them keeps.
pub Effects-keep {κ} :
    (P : Db → Type κ) {db db' : Db}
    → ((d d' : Db) → Effect d d' → P d → P d')
    → Effects db db'
    → P db
    → P db'
Effects-keep P keeps none_yet p = p
Effects-keep P keeps (then {mid} {db'} es e) p = keeps mid db' e (Effects-keep P keeps es p)

pub Effects-trans : {a b c : Db} → Effects a b → Effects b c → Effects a c
Effects-trans es none_yet = es
Effects-trans es (then fs f) = then (Effects-trans es fs) f

pub Changes-Effects : {db db' : Db} → Changes db db' → Effects db db'
Changes-Effects here = none_yet
Changes-Effects (next cs c) = then (Changes-Effects cs) (changed c)

pub cancel_order-Effects :
    (io : Io) (id now : ℕ) (db : Db) → Effects db (cancel_order io id now db).1
unfolding cancel_order
cancel_order-Effects io id now db = elim (transact-cases (io 0) (cancel_body io id now) db) [
  | inl (x, failed) ↦ rw failed none_yet
  | inr (answer, db', body, done) ↦ rw done (then none_yet (called_off io id now answer body))
]
