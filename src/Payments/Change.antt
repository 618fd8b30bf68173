-- ===== src/Payments/Change.antt =====
-- What the transactions of order-service/internal/repository/payment_repo.go, of the two workers and
-- of the reconciliation do to the store, as a few kinds of change, and sequences of them.
use microservice_architectur.Base.{ℕ, ◌≡◌, Bool, true, false, Option, some, ◌==◌, find, update, any}
use microservice_architectur.Domain.Order.{OrderStatus}
use microservice_architectur.Domain.Order
use microservice_architectur.Domain.Payment.{PaymentStatus, can_transition_payment}
use microservice_architectur.Store.{Db, OrderRow, PaymentRow, RefundRow}
use microservice_architectur.Payments.{is_active, key_taken}
use microservice_architectur.Payments.Steps.{moved, started}

pub data Change (db : Db) (db' : Db) : Type 0 where
  -- a payment begins, for a pending order that has none under way or done, under a new key
  begin :
      (order_id : ℕ) (key : Option ℕ) (now : ℕ) (o : OrderRow)
      → find (λ o. o.id == order_id) db.orders ≡ some o
      → Order.same_status o.status OrderStatus.pending ≡ true
      → any (is_active order_id) db.payments ≡ false
      → key_taken key db.payments ≡ false
      → db' ≡ started order_id key now db
      → Change db db'
  -- a payment moves along an arrow of its diagram
  move :
      (id : ℕ) (p : PaymentRow) (to : PaymentStatus) (charge : Option ℕ)
      → find (λ p. p.id == id) db.payments ≡ some p
      → can_transition_payment p.status to ≡ true
      → db' ≡ moved id p to charge db
      → Change db db'
  -- the bookkeeping of payments
  note_payments :
      (q : PaymentRow → Bool) (f : PaymentRow → PaymentRow)
      → ((p : PaymentRow)
          → ((f p).id ≡ p.id)
            × ((f p).order_id ≡ p.order_id)
            × ((f p).status ≡ p.status)
            × ((f p).amount ≡ p.amount)
            × ((f p).idempotency_key ≡ p.idempotency_key))
      → db' ≡ record db { payments = update q f db.payments }
      → Change db db'
  -- the progress of refunds
  note_refunds :
      (q : RefundRow → Bool) (f : RefundRow → RefundRow)
      → ((r : RefundRow) → ((f r).payment_id ≡ r.payment_id) × ((f r).amount ≡ r.amount))
      → db' ≡ record db { refunds = update q f db.refunds }
      → Change db db'

pub data Changes (db : Db) : Db → Type 0 where
  here : Changes db db
  next : {mid db' : Db} → Changes db mid → Change mid db' → Changes db db'

-- What each change keeps, a sequence of them keeps.
pub Changes-keep {κ} :
    (P : Db → Type κ) {db db' : Db}
    → ((d d' : Db) → Change d d' → P d → P d')
    → Changes db db'
    → P db
    → P db'
Changes-keep P keeps here p = p
Changes-keep P keeps (next {mid} {db'} cs c) p = keeps mid db' c (Changes-keep P keeps cs p)
