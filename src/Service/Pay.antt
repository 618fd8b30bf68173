-- ===== src/Service/Pay.antt =====
-- order-service/internal/service/payment_service.go: paying for an order.
--
-- The world is our store and the provider's journal. One call makes many that can fail; `Faults`
-- says what becomes of them. The end of the process between the charge and its record (the demo's
-- crashAfterCharge) is the result `none`.
pub mod Safety
pub mod Success
use microservice_architectur.Base.{
  ℕ, Bool, if◌then◌else◌, Option, none, some, Error, Result, ok, err, Io,
}
use microservice_architectur.Domain.Payment.{PaymentStatus}
use microservice_architectur.Store.{Db}
use microservice_architectur.Payments.{PaymentInfo, start_or_resume}
use microservice_architectur.Payments.Transition.{transition}
use microservice_architectur.Provider.{Provider, charge}

pub record World : Type 0 where
  pub db : Db
  pub provider : Provider

pub record Faults : Type 0 where
  -- the two look-ups and the transaction of StartOrResume, and which violated index is reported
  pub look : Option Error
  pub start_io : Io
  pub look_again : Option Error
  pub key_first : Bool
  -- the provider's queries, whether a lost INSERT was carried out, and the random refusal
  pub charge_io : Io
  pub recorded : Bool
  pub declines : Bool
  -- the transaction of Transition
  pub transition_io : Io
  -- the process ends behind the charge
  pub crash : Bool

-- The part behind the charge: `r` is what the provider answered.
unfoldable pub record_charge : Faults → ℕ → Result ℕ → World → Option (Result (Option ℕ)) × World
record_charge f id (err Error.provider_declined) w =
    let (r, db') = transition f.transition_io id PaymentStatus.failed none w.db in
    (some (err Error.payment_declined), record w { db = db' })
record_charge f id (err e) w = (some (err e), w)
record_charge f id (ok charge_id) w =
    let (r, db') = transition f.transition_io id PaymentStatus.succeeded (some charge_id) w.db in
    if f.crash then (none, w) else elim r [
      | err e ↦ (some (err e), record w { db = db' })
      | ok u ↦ (some (ok (some charge_id)), record w { db = db' })
    ]

unfoldable pub charge_pending :
    Faults → ℕ → Option ℕ → ℕ → PaymentInfo → World → Option (Result (Option ℕ)) × World
unfolding record_charge
charge_pending f order_id key now p w =
    let (r, provider') =
      charge f.charge_io f.recorded f.declines key order_id p.amount now w.provider in
    record_charge f p.id r (record w { provider = provider' })

-- The `switch p.Status` of Pay, and what is behind it.
unfoldable pub settle :
    Faults
    → ℕ
    → Option ℕ
    → ℕ
    → PaymentStatus
    → PaymentInfo
    → World
    → Option (Result (Option ℕ)) × World
unfolding charge_pending
settle f order_id key now PaymentStatus.succeeded p w = (some (ok p.provider_payment_id), w)
settle f order_id key now PaymentStatus.failed p w = (some (err Error.payment_declined), w)
settle f order_id key now PaymentStatus.expired p w = (some (err Error.payment_transition), w)
settle f order_id key now PaymentStatus.refunded p w = (some (err Error.payment_transition), w)
settle f order_id key now _ p w = charge_pending f order_id key now p w

after_start :
    Faults → ℕ → Option ℕ → ℕ → Result PaymentInfo → World → Option (Result (Option ℕ)) × World
unfolding settle
after_start f order_id key now (err e) w = (some (err e), w)
after_start f order_id key now (ok p) w = settle f order_id key now p.status p w

-- Pay
unfoldable pub pay : Faults → ℕ → Option ℕ → ℕ → World → Option (Result (Option ℕ)) × World
unfolding after_start
pay f order_id key now w =
    let (r, db') =
      start_or_resume f.look f.start_io f.look_again f.key_first order_id key now w.db in
    after_start f order_id key now r (record w { db = db' })
