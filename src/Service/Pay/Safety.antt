-- ===== src/Service/Pay/Safety.antt =====
-- Sequences of requests to `Pay` of order-service/internal/service/payment_service.go, and the
-- invariants of the two stores that they work on.
use microservice_architectur.Base.{ℕ, Option, none, some, List, [], ◌∷◌, Result, ok, err, arith}
use microservice_architectur.Domain.Payment.{PaymentStatus}
use microservice_architectur.Payments.{PaymentInfo}
use microservice_architectur.Payments.Invariant
use microservice_architectur.Payments.Change.{Changes, here}
use microservice_architectur.Payments.Kept.{Changes-IsValid}
use microservice_architectur.Payments.Operations.{start_or_resume-Changes, transition-Changes}
use microservice_architectur.Provider.Journal
use microservice_architectur.Provider.Journal.{serve-IsValid, charges}
use microservice_architectur.Service.Pay.{
  World, Faults, record_charge, charge_pending, settle, after_start, pay,
}

-- The invariants of the two stores.
pub record IsValid (w : World) : Type 0 where
  pub ours : Invariant.IsValid w.db
  pub theirs : Journal.IsValid w.provider

-- Behind changes to our store, and with a journal that is no worse.
record Behaves (w0 w : World) : Type 0 where
  ours : Changes w0.db w.db
  theirs : Journal.IsValid w0.provider → Journal.IsValid w.provider

record_charge-Behaves :
    {w0 : World} (f : Faults) (id : ℕ) (r : Result ℕ) (w : World)
    → Behaves w0 w
    → Behaves w0 (record_charge f id r w).1
unfolding record_charge
record_charge-Behaves f id (ok charge_id) w v =
    let t =
      transition-Changes _ w.db v.ours f.transition_io id PaymentStatus.succeeded
        (some charge_id) in
    ground arith
record_charge-Behaves f id (err e) w v =
    let t = transition-Changes _ w.db v.ours f.transition_io id PaymentStatus.failed none in
    ground arith

charge_pending-Behaves :
    {w0 : World} (f : Faults) (order_id : ℕ) (key : Option ℕ) (now : ℕ) (p : PaymentInfo)
    (w : World)
    → Behaves w0 w
    → Behaves w0 (charge_pending f order_id key now p w).1
unfolding charge_pending
charge_pending-Behaves f order_id key now p w v =
    let request = charges f.charge_io f.recorded f.declines key order_id p.amount now in
    record_charge-Behaves f p.id _ _
      (record { ours = v.ours; theirs = λ j. serve-IsValid request w.provider (v.theirs j) })

settle-Behaves :
    {w0 : World} (f : Faults) (order_id : ℕ) (key : Option ℕ) (now : ℕ) (s : PaymentStatus)
    (p : PaymentInfo) (w : World)
    → Behaves w0 w
    → Behaves w0 (settle f order_id key now s p w).1
unfolding settle
settle-Behaves f order_id key now PaymentStatus.succeeded p w v = v
settle-Behaves f order_id key now PaymentStatus.failed p w v = v
settle-Behaves f order_id key now PaymentStatus.expired p w v = v
settle-Behaves f order_id key now PaymentStatus.refunded p w v = v
settle-Behaves f order_id key now PaymentStatus.pending p w v =
    charge_pending-Behaves f order_id key now p w v
settle-Behaves f order_id key now (PaymentStatus.other n) p w v =
    charge_pending-Behaves f order_id key now p w v

after_start-Behaves :
    {w0 : World} (f : Faults) (order_id : ℕ) (key : Option ℕ) (now : ℕ) (r : Result PaymentInfo)
    (w : World)
    → Behaves w0 w
    → Behaves w0 (after_start f order_id key now r w).1
unfolding after_start
after_start-Behaves f order_id key now (err e) w v = v
after_start-Behaves f order_id key now (ok p) w v = settle-Behaves f order_id key now p.status p w v

pay-Behaves :
    {w0 : World} (f : Faults) (order_id : ℕ) (key : Option ℕ) (now : ℕ) (w : World)
    → Behaves w0 w
    → Behaves w0 (pay f order_id key now w).1
unfolding pay
pay-Behaves f order_id key now w v = after_start-Behaves f order_id key now _ _ (record {
  ours =
      start_or_resume-Changes _ w.db v.ours f.look f.start_io f.look_again f.key_first order_id key
        now;
  theirs = v.theirs;
})

pay-IsValid :
    (f : Faults) (order_id : ℕ) (key : Option ℕ) (now : ℕ) (w : World)
    → IsValid w
    → IsValid (pay f order_id key now w).1
pay-IsValid f order_id key now w v =
    let b = pay-Behaves f order_id key now w (record { ours = here; theirs = λ j. j }) in
    record { ours = Changes-IsValid b.ours v.ours; theirs = b.theirs v.theirs }

pub pay-Changes :
    (f : Faults) (order_id : ℕ) (key : Option ℕ) (now : ℕ) (w : World)
    → Changes w.db (pay f order_id key now w).1.db
pay-Changes f order_id key now w =
    (pay-Behaves f order_id key now w (record { ours = here; theirs = λ j. j })).ours

-- A request to pay, with all that happens to it.
pub record Attempt : Type 0 where
  pub faults : Faults
  pub order_id : ℕ
  pub key : Option ℕ
  pub now : ℕ

abbrev pub pays : List Attempt → World → World
pays [] w = w
pays (a ∷ as') w = pays as' (pay a.faults a.order_id a.key a.now w).1

-- After any sequence of requests to pay, for any orders and keys, with any failures of the database
-- and the provider and any ends of the process between charge and record: the payments' invariant
-- holds, and no idempotency key has two charges in the provider's journal.
pub pays-IsValid : (as' : List Attempt) (w : World) → IsValid w → IsValid (pays as' w)
pays-IsValid [] w v = v
pays-IsValid (a ∷ as') w v = pays-IsValid as' _ (pay-IsValid a.faults a.order_id a.key a.now w v)
