-- ===== src/Reconciliation/Ledgers.antt =====
-- The two ledgers that `Run` of order-service/internal/reconciliation/job.go reads, by key.
--
-- The list that the provider answers is an argument. A key is unique among our payments.
use microservice_architectur.Base.{
  ℕ, Bool, false, ◌&&◌, ◌||◌, Option, none, some, List, [], ◌∷◌, ◌==◌, leb, ltb, if◌then◌else◌,
  find, any,
}
use microservice_architectur.Store.{Db, PaymentRow, RefundRow, RefundStatus}
use microservice_architectur.Provider.{ListedStatus, ProviderCharge}
use microservice_architectur.Reconciliation.Classify.{RefundState, Ours, TheirStatus, Theirs}

abbrev pub margin : ℕ
margin = 3600000000000

abbrev pub their_status : ListedStatus → TheirStatus
their_status ListedStatus.charged = TheirStatus.charged
their_status ListedStatus.declined = TheirStatus.declined
their_status ListedStatus.refunded = TheirStatus.refunded

abbrev pub theirs_of : ℕ → ProviderCharge → Theirs
theirs_of key c = record {
  key = key;
  charge_id = c.charge_id;
  amount = c.amount;
  status = their_status c.status;
}

abbrev pub has_key : ℕ → Option ℕ → Bool
has_key key none = false
has_key key (some k) = k == key

-- theirsByKey: the last charge with a key stands in the map.
unfoldable pub theirs_by_key : List ProviderCharge → ℕ → Option Theirs
theirs_by_key [] key = none
theirs_by_key (c ∷ cs) key =
    let later = theirs_by_key cs key in
    elim later [
      | some t ↦ some t
      | none ↦ if has_key key c.key then some (theirs_of key c) else none
    ]

-- providerKeys: the keys of the charges of the period itself, without the margin.
unfoldable pub provider_keys : ℕ → ℕ → List ProviderCharge → List ℕ
provider_keys from to [] = []
provider_keys from to (c ∷ cs) =
    let rest = provider_keys from to cs in
    elim c.key [
      | none ↦ rest
      | some k ↦ if leb from c.created_at && ltb c.created_at to then k ∷ rest else rest
    ]

abbrev pub mem : ℕ → List ℕ → Bool
mem k ks = any (λ i. i == k) ks

abbrev pub refund_state : RefundStatus → RefundState
refund_state RefundStatus.pending = RefundState.pending
refund_state RefundStatus.succeeded = RefundState.succeeded
refund_state RefundStatus.manual_review = RefundState.manual_review

-- LEFT JOIN refunds r ON r.payment_id = p.id: at most one, by the unique index.
abbrev pub refund_of : ℕ → Db → Option RefundRow
refund_of payment_id db = find (λ (r : RefundRow). r.payment_id == payment_id) db.refunds

-- A row of the join.
unfoldable pub ours_of : ℕ → PaymentRow → Db → Ours
ours_of key p db = record {
  payment_id = p.id;
  order_id = p.order_id;
  key = key;
  amount = p.amount;
  status = p.status;
  charge_id = p.provider_payment_id;
  refund_id = elim (refund_of p.id db) [ none ↦ 0 | some r ↦ r.id ];
  refund_status = elim (refund_of p.id db) [
    | none ↦ RefundState.absent
    | some r ↦ refund_state r.status
  ];
}

-- The WHERE of the query, for a payment with this key.
abbrev pub in_scope : ℕ → ℕ → List ℕ → ℕ → PaymentRow → Bool
in_scope from to keys k p = leb from p.created_at && ltb p.created_at to || mem k keys

-- oursByKey; the key is unique.
unfoldable pub ours_by_key : ℕ → ℕ → List ℕ → Db → ℕ → Option Ours
unfolding ours_of
ours_by_key from to keys db key =
    elim (find (λ (p : PaymentRow). has_key key p.idempotency_key) db.payments) [
      | none ↦ none
      | some p ↦ if in_scope from to keys key p then some (ours_of key p db) else none
    ]

-- The keys of our payments.
unfoldable pub our_keys : ℕ → ℕ → List ℕ → List PaymentRow → List ℕ
our_keys from to keys [] = []
our_keys from to keys (p ∷ ps) =
    let rest = our_keys from to keys ps in
    elim p.idempotency_key [
      | none ↦ rest
      | some k ↦ if in_scope from to keys k p then k ∷ rest else rest
    ]

-- The set of keys.
unfoldable pub distinct : List ℕ → List ℕ
distinct [] = []
distinct (k ∷ ks) = let rest = distinct ks in if mem k ks then rest else k ∷ rest
