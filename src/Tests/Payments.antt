-- ===== src/Tests/Payments.antt =====
-- Runs of the payments and the provider at concrete inputs.
use microservice_architectur.Base.{
  ◌≡◌, ◌⊎◌, refl, true, false, none, some, List, [], ◌∷◌, Error, ok, err, healthy,
}
use microservice_architectur.Domain.Payment.{PaymentStatus, can_transition_payment}
use microservice_architectur.Payments.{PaymentInfo, start_or_resume, by_key, present, start}
use microservice_architectur.Payments.Transition.{transition}
use microservice_architectur.Payments.Steps.{IsWhole, transition-IsWhole}
use microservice_architectur.System
use microservice_architectur.System.{transition_tx}
use microservice_architectur.System.Resumed.{Reach-start_or_resume}
use microservice_architectur.Store.{Db}
use microservice_architectur.Provider.{charge, charge_status, charge_succeeded, refund}
use microservice_architectur.Provider.Journal
use microservice_architectur.Provider.Journal.{
  serves, charges, refunds, serves-IsValid, charge-again,
}
use microservice_architectur.Service.Pay.{Faults, pay}
use microservice_architectur.Service.Pay.Safety
use microservice_architectur.Service.Pay.Safety.{Attempt, pays, pays-IsValid}
use microservice_architectur.Service.Pay.Success.{PaidWith, pay-paid}
use microservice_architectur.Tests.Stores.{
  one_payment, a_provider, a_provider-IsValid, a_world, a_world-IsValid,
}

-- Nothing fails.
abbrev pub fair : Faults
fair = record {
  look = none;
  start_io = healthy;
  look_again = none;
  key_first = true;
  charge_io = healthy;
  recorded = true;
  declines = false;
  transition_io = healthy;
  crash = false;
}

-- The process ends behind the charge; then the client repeats its request.
abbrev crash_and_again : List Attempt
crash_and_again =
    record { faults = record fair { crash = true }; order_id = 1; key = some 77; now = 20 }
    ∷ record { faults = fair; order_id = 1; key = some 77; now = 30 }
    ∷ []

pays-IsValid_example : Safety.IsValid (pays crash_and_again a_world)
pays-IsValid_example = pays-IsValid crash_and_again a_world a_world-IsValid

pay-paid_example : PaidWith 77 (some 40) (pay fair 1 (some 77) 20 a_world).1.db
unfolding pay start_or_resume by_key present start charge transition can_transition_payment
pay-paid_example = pay-paid fair 1 77 20 a_world (pay fair 1 (some 77) 20 a_world).1 (some 40) refl

transition-IsWhole_example :
    ((e : Error) × (transition healthy 5 PaymentStatus.succeeded (some 40) one_payment
        ≡ (err e, one_payment)))
    ⊎ ((db' : Db) × (transition healthy 5 PaymentStatus.succeeded (some 40) one_payment
          ≡ (ok tt, db'))
        × IsWhole 5 PaymentStatus.succeeded (some 40) one_payment db')
transition-IsWhole_example =
    transition-IsWhole healthy 5 PaymentStatus.succeeded (some 40) one_payment

abbrev an_info : PaymentInfo
an_info = record {
  id = 5;
  amount = 500;
  status = PaymentStatus.pending;
  provider_payment_id = none;
}

-- The payment succeeds, then its key comes back for another order.
abbrev after_success : Db
after_success = (transition healthy 5 PaymentStatus.succeeded (some 40) one_payment).1

Reach-start_or_resume_example :
    (q : PaymentInfo) × (start_or_resume none healthy none true 2 (some 77) 99 after_success
      ≡ (ok q, after_success))
    × (q.id ≡ 5)
    × (q.amount ≡ 500)
unfolding start_or_resume by_key
Reach-start_or_resume_example =
    Reach-start_or_resume none healthy none true 1 77 20 one_payment one_payment after_success
      an_info refl
      (System.next System.here (transition_tx healthy 5 PaymentStatus.succeeded (some 40) refl))
      healthy none true 2 99

serves-IsValid_example : Journal.IsValid (
    serves
      (charges healthy true false (some 77) 1 500 20
        ∷ charges healthy true false (some 77) 1 500 30
        ∷ refunds healthy true 3 40 500
        ∷ [])
      a_provider)
serves-IsValid_example =
    serves-IsValid
      (charges healthy true false (some 77) 1 500 20
        ∷ charges healthy true false (some 77) 1 500 30
        ∷ refunds healthy true 3 40 500
        ∷ [])
      a_provider a_provider-IsValid

charge-again_example :
    let q =
      serves
        (refunds healthy true 3 40 500 ∷ [])
        (charge healthy true false (some 77) 1 500 20 a_provider).1 in
    (charge healthy true true (some 77) 2 900 50 q ≡ (ok 40, q))
    × (charge_status healthy 77 q ≡ ok (charge_succeeded 40))
unfolding charge refund
charge-again_example =
    charge-again healthy true false 77 1 500 20 a_provider 40 (refunds healthy true 3 40 500 ∷ [])
      refl refl true true 2 900 50
