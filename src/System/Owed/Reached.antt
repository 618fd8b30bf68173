-- ===== src/System/Owed/Reached.antt =====
-- The money of the orders over every sequence of requests and rounds of workers of order-service.

use microservice_architectur.Store.{Db}
use microservice_architectur.Payments.Change.{Change, begin, move, note_payments, note_refunds}
use microservice_architectur.System.{Reach}
use microservice_architectur.System.Committed.{Reach-Effects}
use microservice_architectur.System.Effect.{Effect, Effects-keep, changed, created, called_off}
use microservice_architectur.System.Owed.{IsOwed}
use microservice_architectur.System.Owed.Begun.{begun-IsOwed, noted-IsOwed, refund_noted-IsOwed}
use microservice_architectur.System.Owed.Moved.{moved-IsOwed}
use microservice_architectur.System.Owed.Ordered.{created-IsOwed}
use microservice_architectur.System.Owed.PaidBack.{cancel_body-IsOwed}

Change-IsOwed : (db db' : Db) → Change db db' → IsOwed db → IsOwed db'
Change-IsOwed db db' (begin order_id key now o found pending free fresh same) v =
    rw same (begun-IsOwed order_id key now o db found pending free fresh v)
Change-IsOwed db db' (move id p to charge found can same) v =
    rw same (moved-IsOwed id p to charge db found can v)
Change-IsOwed db db' (note_payments q f kept same) v = rw same (noted-IsOwed q f kept db v)
Change-IsOwed db db' (note_refunds q f kept same) v = rw same (refund_noted-IsOwed q f kept db v)

Effect-IsOwed : (db db' : Db) → Effect db db' → IsOwed db → IsOwed db'
Effect-IsOwed db db' (changed c) v = Change-IsOwed db db' c v
Effect-IsOwed db db' (created m) v = created-IsOwed db db' m v
Effect-IsOwed db db' (called_off io id now answer e) v =
    cancel_body-IsOwed io id now db (answer, db') e v

-- No money is lost and none is given away. Whatever requests and workers do one after the other, in
-- any order, with any failures, any answers of the provider and any retries, a store in which the
-- following holds keeps it: a payment that has succeeded for an order that is cancelled has a refund
-- of its amount; a refund is of its payment's amount, and the order of that payment is cancelled; no
-- payment has two refunds; the order of a pending payment is pending; the keys of orders and the
-- payments' references to them hold; and so does the payments' invariant.
pub Reach-IsOwed : (db db' : Db) → IsOwed db → Reach db db' → IsOwed db'
Reach-IsOwed db db' v r = Effects-keep IsOwed Effect-IsOwed (Reach-Effects r) v
