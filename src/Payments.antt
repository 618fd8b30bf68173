-- ===== src/Payments.antt =====
-- order-service/internal/repository/payment_repo.go: the payments' store.
--
-- Each method takes an `Io`, which says which of its statements fail, in their order: 0 is Begin.
-- The unique indexes and the CHECK of the schema stand in `insert_payment`. Where a row breaks both
-- indexes the server reports one of them; which one is the argument `key_first`.
pub mod Transition
pub mod Invariant
pub mod Change
pub mod Kept
pub mod Operations
pub mod Steps
pub mod Resume
use microservice_architectur.Base.{
  ℕ, zero, suc, ◌+◌, ◌*◌, Bool, true, false, not, ◌&&◌, ◌||◌, Option, none, some, List, [], ◌∷◌,
  ◌==◌, if◌then◌else◌, find, select, update, any, count, sum_by, PgCode, Error, Result, ok, err,
  ◌>>=◌, ◌>>◌, Io, attempt, reject_if, or_fail, transact,
}
use microservice_architectur.Domain.Order.{OrderStatus, OrderItem}
use microservice_architectur.Domain.Order
use microservice_architectur.Domain.Payment.{PaymentStatus, can_transition_payment}
use microservice_architectur.Domain.Payment
use microservice_architectur.Store.{Db, OrderRow, PaymentRow, PaymentEvent}

-- PaymentInfo
pub record PaymentInfo : Type 0 where
  pub id : ℕ
  pub amount : ℕ
  pub status : PaymentStatus
  pub provider_payment_id : Option ℕ

-- The rows of the partial index payments_one_active_per_order.
abbrev pub is_active : ℕ → PaymentRow → Bool
is_active order_id p =
    p.order_id == order_id
    && (Payment.same_status p.status PaymentStatus.pending
        || Payment.same_status p.status PaymentStatus.succeeded)

abbrev pub has_key : ℕ → PaymentRow → Bool
has_key key p = elim p.idempotency_key [ none ↦ false | some k ↦ k == key ]

abbrev pub key_taken : Option ℕ → List PaymentRow → Bool
key_taken none ps = false
key_taken (some key) ps = any (has_key key) ps

-- A new payment's row, at the time `now`.
abbrev pub new_payment : ℕ → ℕ → ℕ → Option ℕ → ℕ → PaymentRow
new_payment id order_id amount key now = record {
  id = id;
  order_id = order_id;
  amount = amount;
  status = PaymentStatus.pending;
  provider_payment_id = none;
  idempotency_key = key;
  created_at = now;
  reconcile_attempts = 0;
  next_reconcile_at = now;
  manual_review = false;
}

-- INSERT INTO payments ... RETURNING id
unfoldable pub insert_payment : Bool → ℕ → ℕ → Option ℕ → ℕ → Db → Result (ℕ × Db)
insert_payment key_first order_id amount key now db =
    let active = any (is_active order_id) db.payments in
    let taken = key_taken key db.payments in
    do
      reject_if (amount == 0) (Error.pg (PgCode.other_code 23514))
      reject_if (taken && (key_first || not active)) (Error.pg PgCode.payments_idempotency_key)
      reject_if active (Error.pg PgCode.payments_one_active_per_order)
      ok (
        db.next_id,
        record db {
          payments = new_payment db.next_id order_id amount key now ∷ db.payments;
          next_id = suc db.next_id;
        },
      )

-- addPaymentEvent
unfoldable pub add_payment_event : ℕ → Option PaymentStatus → PaymentStatus → Db → Db
add_payment_event payment_id from to db = record db {
  payment_events =
      record { payment_id = payment_id; from_status = from; to_status = to } ∷ db.payment_events;
}

-- The error of the INSERT as `start` returns it.
abbrev pub active_error : Error → Error
active_error (Error.pg PgCode.payments_one_active_per_order) = Error.payment_already_active
active_error e = e

abbrev pub map_err {ℓ} : {A : Type ℓ} → (Error → Error) → Result A → Result A
map_err f (ok a) = ok a
map_err f (err e) = err (f e)

unfoldable pub order_total : ℕ → Db → ℕ
order_total order_id db =
    sum_by (λ (i : OrderItem). i.price * i.quantity)
      (select (λ i. i.order_id == order_id) db.order_items)

-- The transaction of `start`, its commit included.
unfoldable pub start_body : Io → Bool → ℕ → Option ℕ → ℕ → Db → Result ((ℕ × ℕ) × Db)
unfolding insert_payment add_payment_event order_total
start_body io key_first order_id key now db =
    let amount = order_total order_id db in
    do
      attempt (io 1)
      order ← or_fail (find (λ (o : OrderRow). o.id == order_id) db.orders) Error.order_not_found
      reject_if (not (Order.same_status order.status OrderStatus.pending))
          Error.invalid_status_transition
      attempt (io 2)
      (id, db1) ←
          map_err active_error
            (attempt (io 3) >> insert_payment key_first order_id amount key now db)
      attempt (io 4)
      attempt (io 5)
      ok ((id, amount), add_payment_event id none PaymentStatus.pending db1)

-- start
unfoldable pub start : Io → Bool → ℕ → Option ℕ → ℕ → Db → Result (ℕ × ℕ) × Db
unfolding start_body
start io key_first order_id key now db =
    transact (io 0) (start_body io key_first order_id key now) db

-- The row as `byKey` scans it.
abbrev pub info : PaymentRow → PaymentInfo
info p = record {
  id = p.id;
  amount = p.amount;
  status = p.status;
  provider_payment_id = p.provider_payment_id;
}

-- byKey; no row is `none`.
unfoldable pub by_key : Option Error → ℕ → Db → Result (Option PaymentInfo)
by_key fault key db = do
  attempt fault
  elim (find (has_key key) db.payments) [ none ↦ ok none | some p ↦ ok (some (info p)) ]

abbrev pub no_rows : Error
no_rows = Error.opaque 0

-- `return r.byKey(ctx, key)` after the unique violation; without a key there is none.
resumed : Option Error → Option ℕ → Db → Result PaymentInfo
unfolding by_key
resumed last none db = err no_rows
resumed last (some key) db = do found ← by_key last key db; or_fail found no_rows

-- What StartOrResume makes of the result of `start`.
unfoldable pub present : Option Error → Option ℕ → Result (ℕ × ℕ) → Db → Result PaymentInfo
unfolding resumed
present last key (ok (id, amount)) db = ok (record {
  id = id;
  amount = amount;
  status = PaymentStatus.pending;
  provider_payment_id = none;
})
present last key (err (Error.pg PgCode.payments_idempotency_key)) db = resumed last key db
present last key (err e) db = err e

-- The part of StartOrResume behind the first look-up.
unfoldable pub start_new :
    Io → Option Error → Bool → ℕ → Option ℕ → ℕ → Db → Result PaymentInfo × Db
start_new io last key_first order_id key now db =
    let (r, db') = start io key_first order_id key now db in (present last key r db', db')

-- StartOrResume. `first` and `last` are the faults of the two calls of `byKey`; that the second one
-- finds no row is an error that the code hands on.
unfoldable pub start_or_resume :
    Option Error → Io → Option Error → Bool → ℕ → Option ℕ → ℕ → Db → Result PaymentInfo × Db
unfolding start_new
start_or_resume first io last key_first order_id none now db =
    start_new io last key_first order_id none now db
start_or_resume first io last key_first order_id (some key) now db = elim (by_key first key db) [
  | err e ↦ (err e, db)
  | ok (some p) ↦ (ok p, db)
  | ok none ↦ start_new io last key_first order_id (some key) now db
]

-- Start
unfoldable pub start_keyless : Io → Bool → ℕ → ℕ → Db → Result (ℕ × ℕ) × Db
unfolding start_or_resume
start_keyless io key_first order_id now db =
    let (r, db') = start_or_resume none io none key_first order_id none now db in
    (r >>= (λ p. ok (p.id, p.amount)), db')
