-- ===== src/Tests/Stores.antt =====
-- Small stores that keep the invariants.
use microservice_architectur.Base.{refl, false, none, some, [], ◌∷◌, arith}
use microservice_architectur.Domain.Order.{OrderStatus}
use microservice_architectur.Domain.Payment.{PaymentStatus}
use microservice_architectur.Store.{Db, PaymentRow}
use microservice_architectur.Payments.Invariant
use microservice_architectur.Provider.{Provider}
use microservice_architectur.Provider.Journal
use microservice_architectur.Provider.Journal.{
  serves, charges, refunds, serves-IsValid, charge-again,
}
use microservice_architectur.Service.Pay.{World}
use microservice_architectur.Service.Pay.Safety
use microservice_architectur.Service.Pay.Safety.{Attempt, pays, pays-IsValid}

-- One pending order over 500, and a payment of it that is pending.
abbrev pub a_payment : PaymentRow
a_payment = record {
  id = 5;
  order_id = 1;
  amount = 500;
  status = PaymentStatus.pending;
  provider_payment_id = none;
  idempotency_key = some 77;
  created_at = 10;
  reconcile_attempts = 0;
  next_reconcile_at = 0;
  manual_review = false;
}

abbrev pub no_payments : Db
no_payments = record {
  orders = record { id = 1; status = OrderStatus.pending; created_at = 3 } ∷ [];
  order_items = record { id = 2; order_id = 1; product_id = 9; quantity = 5; price = 100 } ∷ [];
  products = [];
  payments = [];
  payment_events = [];
  refunds = [];
  idempotency_keys = [];
  outbox = [];
  next_id = 5;
}

abbrev pub one_payment : Db
one_payment = record no_payments {
  payments = a_payment ∷ [];
  payment_events =
      record { payment_id = 5; from_status = none; to_status = PaymentStatus.pending } ∷ [];
  next_id = 6;
}

pub no_payments-IsValid : Invariant.IsValid no_payments
no_payments-IsValid = record {
  fresh = tt;
  one_active = λ o. omega arith;
  logged = tt;
  settled = tt;
}

pub one_payment-IsValid : Invariant.IsValid one_payment
one_payment-IsValid = record {
  fresh = (omega arith, tt);
  one_active = λ o. ground arith;
  logged = (refl, tt);
  settled = ((λ e. absurd (ground arith)), tt);
}

abbrev pub a_provider : Provider
a_provider = record { charges = []; refunds = []; down = false; next_id = 40 }

pub a_provider-IsValid : Journal.IsValid a_provider
a_provider-IsValid = record { charged_once = λ k. omega arith; refunded_once = λ k. omega arith }

abbrev pub a_world : World
a_world = record { db = no_payments; provider = a_provider }

pub a_world-IsValid : Safety.IsValid a_world
a_world-IsValid = record { ours = no_payments-IsValid; theirs = a_provider-IsValid }
