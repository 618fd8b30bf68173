-- ===== src/Tests/System.antt =====
-- A shop's day at concrete inputs: an order, its payment, its cancellation and the refund.
use microservice_architectur.Base.{refl, true, false, none, some, [], ◌∷◌, healthy, arith}
use microservice_architectur.Store.{Db}
use microservice_architectur.Service.Pay.{pay}
use microservice_architectur.Service.Place.{pos, place_order}
use microservice_architectur.Service.Orders.{cancel_order}
use microservice_architectur.Worker.Refund.{new_refund_worker, process_due}
use microservice_architectur.System.{
  Reach, here, next, order_request, pay_request, cancel_tx, refund_round,
}
use microservice_architectur.System.Stocked.{IsStocked}
use microservice_architectur.System.Stock.{IsConserved, Reach-IsConserved}
use microservice_architectur.System.Owed.{IsOwed}
use microservice_architectur.System.Owed.Reached.{Reach-IsOwed}
use microservice_architectur.Tests.Stores.{a_provider}
use microservice_architectur.Tests.Orders.{two_products, late_commit}
use microservice_architectur.Tests.Payments.{fair}
use microservice_architectur.Tests.Workers.{ask_provider, recorded}

abbrev with_order : Db
with_order =
    (place_order true late_commit (λ k. none) (λ k. 0)
      (record { product_id = 1; quantity = pos 2 } ∷ []) none 100 two_products).1.0

abbrev with_payment : Db
with_payment = (pay fair 7 (some 77) 110 (record { db = with_order; provider = a_provider })).1.db

abbrev with_cancelled : Db
with_cancelled = (cancel_order healthy healthy 7 120 with_payment with_payment).1

abbrev with_refund : Db
with_refund =
    (process_due ask_provider new_refund_worker none none (λ id. false) 130 (λ id. recorded)
      a_provider with_cancelled).1.1

abbrev a_day : Reach two_products with_refund
a_day =
    next
      (next
        (next
          (next here (
            order_request true late_commit (λ k. none) (λ k. 0)
              (record { product_id = 1; quantity = pos 2 } ∷ []) none 100 refl))
          (pay_request fair 7 (some 77) 110 a_provider refl))
        (cancel_tx healthy healthy 7 120 with_payment refl))
      (refund_round ask_provider new_refund_worker none none (λ id. false) 130 (λ id. recorded)
        a_provider refl)

two_products-IsStocked : IsStocked two_products
two_products-IsStocked = record {
  orders_keyed = tt;
  bound = 3;
  products_keyed = (omega arith, (omega arith, tt));
  items_refer = tt;
  one_item = λ o k. omega arith;
}

two_products-IsOwed : IsOwed two_products
two_products-IsOwed = record {
  valid = record { fresh = tt; one_active = λ o. omega arith; logged = tt; settled = tt };
  orders_keyed = tt;
  payments_refer = tt;
  waits = tt;
  owed = tt;
  backed = tt;
  one_refund = λ k. omega arith;
}

Reach-IsConserved_example : IsConserved two_products with_refund
Reach-IsConserved_example = Reach-IsConserved two_products with_refund two_products-IsStocked a_day

Reach-IsOwed_example : IsOwed with_refund
Reach-IsOwed_example = Reach-IsOwed two_products with_refund two_products-IsOwed a_day
