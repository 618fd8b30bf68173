-- ===== src/Worker/Reconcile/Told.antt =====
-- What moves a payment in order-service/internal/worker/reconcile_worker.go.
use microservice_architectur.Base.{
  ℕ, ◌≤◌, ◌≡◌, refl, Bool, true, Option, none, some, List, [], ◌∷◌, ◌==◌, find, update, map, Error,
  Result, ok, err, arith, inl, inr, ◌⊎◌, Option-cases, Result-cases, Bool-cases, leb,
}
use microservice_architectur.Domain.Payment.{PaymentStatus, can_transition_payment}
use microservice_architectur.Store.{Db, PaymentRow}
use microservice_architectur.Payments.Steps.{moved, transition-cases}
use microservice_architectur.Provider.{
  ChargeStatus, charge_not_found, charge_declined, charge_succeeded,
}
use microservice_architectur.Worker.Backoff.{backoff}
use microservice_architectur.Worker.Reconcile.{
  ReconcileWorker, StuckPayment, Faults, manual, schedule, retry_or_manual, after_transition,
  resolve, by_answer, reconcile,
}

-- What an answer of the provider says about a payment of some age, and with which charge.
pub data Told (expire_after age : ℕ) : ChargeStatus → PaymentStatus → Option ℕ → Type 0 where
  charged : (c : ℕ) → Told expire_after age (charge_succeeded c) PaymentStatus.succeeded (some c)
  declined : Told expire_after age charge_declined PaymentStatus.failed none
  unknown_for_long :
      expire_after ≤ age → Told expire_after age charge_not_found PaymentStatus.expired none

-- The parts of a payment that money depends on.
abbrev pub money : PaymentRow → ℕ × ℕ × ℕ × PaymentStatus × Option ℕ
money p = (p.id, p.order_id, p.amount, p.status, p.provider_payment_id)

-- The store differs in the worker's bookkeeping at most.
abbrev pub SameMoney : Db → Db → Type 0
SameMoney db db' =
    (map money db'.payments ≡ map money db.payments)
    × (db'.orders ≡ db.orders)
    × (db'.payment_events ≡ db.payment_events)

map-update :
    (q : PaymentRow → Bool) (f : PaymentRow → PaymentRow) (ps : List PaymentRow)
    → ((p : PaymentRow) → money (f p) ≡ money p)
    → map money (update q f ps) ≡ map money ps
map-update q f [] same = refl
map-update q f (p ∷ ps) same = elim (Bool-cases (q p)) [
  | inl e ↦ rw (e, same p, map-update q f ps same) refl
  | inr e ↦ rw (e, map-update q f ps same) refl
]

manual-SameMoney : (f : Faults) (p : StuckPayment) (db : Db) → SameMoney db (manual f p db)
unfolding manual
manual-SameMoney f p db = elim (Option-cases f.update_fault) [
  | inl e ↦ rw e (map-update _ _ db.payments (λ q. refl), refl, refl)
  | inr (x, e) ↦ rw e (refl, refl, refl)
]

schedule-SameMoney :
    (f : Faults) (p : StuckPayment) (after : ℕ) (db : Db) → SameMoney db (schedule f p after db)
unfolding schedule
schedule-SameMoney f p after db = elim (Option-cases f.update_fault) [
  | inl e ↦ rw e (map-update _ _ db.payments (λ q. refl), refl, refl)
  | inr (x, e) ↦ rw e (refl, refl, refl)
]

retry_or_manual-SameMoney :
    (w : ReconcileWorker) (f : Faults) (p : StuckPayment) (db : Db)
    → SameMoney db (retry_or_manual w f p db)
unfolding retry_or_manual
retry_or_manual-SameMoney w f p db = elim (Bool-cases (leb w.max_attempts p.attempts)) [
  | inl e ↦ rw e (manual-SameMoney f p db)
  | inr e ↦ rw e (schedule-SameMoney f p (backoff w.retry_base w.retry_cap p.attempts) db)
]

after_transition-SameMoney :
    (w : ReconcileWorker) (f : Faults) (p : StuckPayment) (e : Error) (db : Db)
    → SameMoney db (after_transition w f p (err e) db)
unfolding after_transition
after_transition-SameMoney w f p Error.payment_transition db = (refl, refl, refl)
after_transition-SameMoney w f p e db = retry_or_manual-SameMoney w f p db

-- What happens to the payment with this id.
abbrev pub Moves : ℕ → PaymentStatus → Option ℕ → Db → Db → Type 0
Moves id to charge db db' =
    (p : PaymentRow) × (find (λ p. p.id == id) db.payments ≡ some p)
    × (can_transition_payment p.status to ≡ true)
    × (db' ≡ moved id p to charge db)

resolve-cases :
    (w : ReconcileWorker) (f : Faults) (p : StuckPayment) (to : PaymentStatus) (charge : Option ℕ)
    (db : Db)
    → SameMoney db (resolve w f p to charge db)
      ⊎ Moves p.id to charge db (resolve w f p to charge db)
unfolding resolve after_transition
resolve-cases w f p to charge db = elim (transition-cases f.transition_io p.id to charge db) [
  | inl (e, failed) ↦ inl (rw failed (after_transition-SameMoney w f p e db))
  | inr (q, done, found, can) ↦ inr (q, found, can, rw done refl)
]

-- A payment moves as an answer says.
abbrev pub MovesAsTold : ReconcileWorker → StuckPayment → ChargeStatus → Db → Db → Type 0
MovesAsTold w p answer db db' =
    (to : PaymentStatus) × (charge : Option ℕ) × Told w.expire_after p.age answer to charge
    × Moves p.id to charge db db'

by_answer-told :
    (w : ReconcileWorker) (f : Faults) (p : StuckPayment) (answer : ChargeStatus) (db : Db)
    → SameMoney db (by_answer w f p (ok answer) db)
      ⊎ MovesAsTold w p answer db (by_answer w f p (ok answer) db)
unfolding by_answer
by_answer-told w f p (charge_succeeded c) db =
    elim (resolve-cases w f p PaymentStatus.succeeded (some c) db) [
      | inl same ↦ inl same
      | inr moves ↦ inr (PaymentStatus.succeeded, some c, charged c, moves)
    ]
by_answer-told w f p charge_declined db = elim (resolve-cases w f p PaymentStatus.failed none db) [
  | inl same ↦ inl same
  | inr moves ↦ inr (PaymentStatus.failed, none, declined, moves)
]
by_answer-told w f p charge_not_found db = elim (Bool-cases (leb w.expire_after p.age)) [
  | inl old ↦ rw old (elim (resolve-cases w f p PaymentStatus.expired none db) [
    | inl same ↦ inl same
    | inr moves ↦ inr (PaymentStatus.expired, none, unknown_for_long (ground arith), moves)
  ])
  | inr young ↦
      rw young (inl (schedule-SameMoney f p (backoff w.retry_base w.retry_cap p.attempts) db))
]

-- The worker settles a payment only by the provider's word. Whatever fails, the round for one payment
-- leaves every payment's status, order, amount and charge, the orders and the history as they are; or
-- the payment has a key, the provider has answered to it, and this payment moves with its history, as
-- the diagram allows: to `succeeded` with the charge the provider names, to `failed` if the provider
-- declined it, or to `expired` if the provider knows no charge and the payment is at least
-- `expireAfter` old.
pub reconcile-told :
    (w : ReconcileWorker) (f : Faults) (check : ℕ → Result ChargeStatus) (p : StuckPayment)
    (db : Db)
    → SameMoney db (reconcile w f check p db)
      ⊎ ((key : ℕ) × (answer : ChargeStatus) × (p.key ≡ some key)
          × (check key ≡ ok answer)
          × MovesAsTold w p answer db (reconcile w f check p db))
unfolding reconcile by_answer
reconcile-told w f check p db = elim (Option-cases p.key) [
  | inl missing ↦ inl (rw missing (manual-SameMoney f p db))
  | inr (key, has) ↦ rw has (elim (Result-cases (check key)) [
    | inl (e, failed) ↦ inl (rw failed (retry_or_manual-SameMoney w f p db))
    | inr (answer, told) ↦ rw told (elim (by_answer-told w f p answer db) [
      | inl same ↦ inl same
      | inr moves ↦ inr (key, answer, refl, told, moves)
    ])
  ])
]
