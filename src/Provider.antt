-- ===== src/Provider.antt =====
-- order-service/internal/payment/fake_provider.go: the provider's journal of charges and refunds.
--
-- The journal is written outside our transactions. `Io` says which of the queries fail: 0 is the
-- question whether the provider is down, whose error the code ignores. An INSERT that fails may have
-- been carried out, its answer lost; `recorded` says whether it was. The random number decides
-- `declines`. A charge id "ch_<id>" and a refund id "rf_<id>" are written as their numbers, and the
-- pause that stands for the network is left out.
pub mod Journal
use microservice_architectur.Base.{
  ℕ, suc, Bool, true, false, not, ◌&&◌, Option, none, some, List, [], ◌∷◌, ◌==◌, leb, ltb,
  if◌then◌else◌, find, any, select, map, Error, Result, ok, err, Io,
}

-- fake_provider_charges; `charged` is false for the status "declined".
pub record ChargeRow : Type 0 where
  pub id : ℕ
  pub order_id : ℕ
  pub amount : ℕ
  pub charged : Bool
  pub key : Option ℕ
  pub created_at : ℕ

-- fake_provider_refunds
pub record ProviderRefund : Type 0 where
  pub id : ℕ
  pub key : ℕ
  pub charge_id : ℕ
  pub amount : ℕ

pub record Provider : Type 0 where
  pub charges : List ChargeRow
  pub refunds : List ProviderRefund
  pub down : Bool
  pub next_id : ℕ

-- isDown: a query that fails leaves `down` false.
unfoldable pub is_down : Option Error → Provider → Bool
is_down none p = p.down
is_down (some e) p = false

abbrev pub same_key : Option ℕ → ℕ → Bool
same_key none k = false
same_key (some j) k = j == k

-- The unique index: NULL never conflicts.
abbrev pub conflict : Option ℕ → List ChargeRow → Bool
conflict none cs = false
conflict (some k) cs = any (λ c. same_key c.key k) cs

-- SELECT id, status FROM fake_provider_charges WHERE idempotency_key = $1
abbrev pub charge_by_key : Option ℕ → List ChargeRow → Option ChargeRow
charge_by_key none cs = none
charge_by_key (some k) cs = find (λ c. same_key c.key k) cs

abbrev pub answer : ChargeRow → Result ℕ
answer c = if c.charged then ok c.id else err Error.provider_declined

abbrev pub internal_error : Error
internal_error = Error.opaque 1

-- The outcome of the first attempt, for a repeated key.
repeated : Option Error → Option ℕ → Provider → Result ℕ
repeated (some e) key p = err e
repeated none key p = elim (charge_by_key key p.charges) [
  | none ↦ err internal_error
  | some c ↦ answer c
]

-- A charge that the journal takes.
recorded_charge : Bool → Option ℕ → ℕ → ℕ → ℕ → Provider → ChargeRow
recorded_charge declines key order_id amount now p = record {
  id = p.next_id;
  order_id = order_id;
  amount = amount;
  charged = not declines;
  key = key;
  created_at = now;
}

abbrev with_charge : ChargeRow → Provider → Provider
with_charge c p = record p { charges = c ∷ p.charges; next_id = suc p.next_id }

insert_charge : Option Error → Bool → ChargeRow → Provider → Result ℕ × Provider
insert_charge none recorded c p = (answer c, with_charge c p)
insert_charge (some e) recorded c p = (err e, if recorded then with_charge c p else p)

on_conflict : Option Error → Option Error → Option ℕ → Provider → Result ℕ
unfolding repeated
on_conflict (some e) second key p = err e
on_conflict none second key p = repeated second key p

-- Charge
unfoldable pub charge : Io → Bool → Bool → Option ℕ → ℕ → ℕ → ℕ → Provider → Result ℕ × Provider
unfolding is_down insert_charge on_conflict recorded_charge
charge io recorded declines key order_id amount now p =
    if is_down (io 0) p
    then (err Error.provider_unavailable, p)
    else if conflict key p.charges
    then (on_conflict (io 1) (io 2) key p, p)
    else insert_charge (io 1) recorded (recorded_charge declines key order_id amount now p) p

refund_again : Option Error → Option Error → ℕ → Provider → Result ℕ
refund_again (some e) second key p = err e
refund_again none (some e) key p = err e
refund_again none none key p = elim (find (λ r. r.key == key) p.refunds) [
  | none ↦ err internal_error
  | some r ↦ ok r.id
]

abbrev with_refund : ℕ → ℕ → ℕ → Provider → Provider
with_refund key charge_id amount p = record p {
  refunds =
      record { id = p.next_id; key = key; charge_id = charge_id; amount = amount } ∷ p.refunds;
  next_id = suc p.next_id;
}

insert_refund : Option Error → Bool → ℕ → ℕ → ℕ → Provider → Result ℕ × Provider
insert_refund none recorded key charge_id amount p =
    (ok p.next_id, with_refund key charge_id amount p)
insert_refund (some e) recorded key charge_id amount p =
    (err e, if recorded then with_refund key charge_id amount p else p)

-- Refund
unfoldable pub refund : Io → Bool → ℕ → ℕ → ℕ → Provider → Result ℕ × Provider
unfolding is_down refund_again insert_refund
refund io recorded key charge_id amount p =
    if is_down (io 0) p
    then (err Error.provider_unavailable, p)
    else if any (λ r. r.key == key) p.refunds
    then (refund_again (io 1) (io 2) key p, p)
    else insert_refund (io 1) recorded key charge_id amount p

-- ChargeStatus
pub data ChargeStatus : Type 0 where
  charge_not_found charge_declined : ChargeStatus
  charge_succeeded : ℕ → ChargeStatus

unfoldable pub charge_status : Io → ℕ → Provider → Result ChargeStatus
unfolding is_down
charge_status io key p =
    let row = find (λ c. same_key c.key key) p.charges in
    if is_down (io 0) p then err Error.provider_unavailable else elim (io 1) [
      | some e ↦ err e
      | none ↦ elim row [
        | none ↦ ok charge_not_found
        | some c ↦ ok (if c.charged then charge_succeeded c.id else charge_declined)
      ]
    ]

-- ProviderCharge; its status is "charged", "declined" or "refunded".
pub data ListedStatus : Type 0 where
  charged declined refunded : ListedStatus

pub record ProviderCharge : Type 0 where
  pub key : Option ℕ
  pub charge_id : ℕ
  pub amount : ℕ
  pub status : ListedStatus
  pub created_at : ℕ

unfoldable pub listed : Provider → ChargeRow → ProviderCharge
listed p c = record {
  key = c.key;
  charge_id = c.id;
  amount = c.amount;
  status =
      if c.charged
      then (if any (λ r. r.charge_id == c.id) p.refunds then refunded else charged)
      else declined;
  created_at = c.created_at;
}

-- ListCharges: the charges of a period, its end excluded.
unfoldable pub list_charges : Io → ℕ → ℕ → Provider → Result (List ProviderCharge)
unfolding is_down listed
list_charges io from to p =
    if is_down (io 0) p then err Error.provider_unavailable else elim (io 1) [
      | some e ↦ err e
      | none ↦
          ok (map (listed p) (select (λ c. leb from c.created_at && ltb c.created_at to) p.charges))
    ]
