-- ===== src/Provider/Journal.antt =====
-- Sequences of requests to order-service/internal/payment/fake_provider.go, and the keys in its journal.
use microservice_architectur.Base.{
  ℕ, ◌≤◌, ◌≡◌, Bool, true, false, Option, none, some, List, [], ◌∷◌, ◌==◌, find, any, count, Result,
  ok, Io, healthy, arith, Bool-cases, inl, inr, ==_iff, ==_refl, Option-cases, subst,
}
use microservice_architectur.Store.Rows.{any-false-count, any-false-find, find-any}
use microservice_architectur.Provider.{
  Provider, ChargeRow, ProviderRefund, same_key, conflict, charge, refund, charge_status,
  charge_succeeded, answer, recorded_charge,
}

-- One request: what fails, what is recorded and declined, and its arguments.
pub data Request : Type 0 where
  charges : Io → Bool → Bool → Option ℕ → ℕ → ℕ → ℕ → Request
  refunds : Io → Bool → ℕ → ℕ → ℕ → Request

abbrev pub serve : Request → Provider → Provider
serve (charges io recorded declines key order_id amount now) p =
    (charge io recorded declines key order_id amount now p).1
serve (refunds io recorded key charge_id amount) p = (refund io recorded key charge_id amount p).1

abbrev pub serves : List Request → Provider → Provider
serves [] p = p
serves (r ∷ rs) p = serves rs (serve r p)

abbrev pub keyed : ℕ → ChargeRow → Bool
keyed k c = same_key c.key k

abbrev pub refund_keyed : ℕ → ProviderRefund → Bool
refund_keyed k r = r.key == k

-- No key stands twice in the journal.
pub record IsValid (p : Provider) : Type 0 where
  pub charged_once : (k : ℕ) → count (keyed k) p.charges ≤ 1
  pub refunded_once : (k : ℕ) → count (refund_keyed k) p.refunds ≤ 1

conflict-count :
    (key : Option ℕ) (k : ℕ) (cs : List ChargeRow)
    → conflict key cs ≡ false
    → same_key key k ≡ true
    → count (keyed k) cs ≡ 0
conflict-count none k cs free same = absurd (cc)
conflict-count (some j) k cs free same =
    subst (λ i. count (keyed i) cs ≡ 0) ((==_iff j k).0 same) (any-false-count (keyed j) cs free)

charge-charged_once :
    (io : Io) (recorded declines : Bool) (key : Option ℕ) (order_id amount now : ℕ) (p : Provider)
    → IsValid p
    → (k : ℕ)
    → count (keyed k) (charge io recorded declines key order_id amount now p).1.charges ≤ 1
unfolding charge
charge-charged_once io recorded declines key order_id amount now p v k =
    ground (arith, v.charged_once k, conflict-count key k p.charges)

refund-refunded_once :
    (io : Io) (recorded : Bool) (key charge_id amount : ℕ) (p : Provider)
    → IsValid p
    → (k : ℕ) → count (refund_keyed k) (refund io recorded key charge_id amount p).1.refunds ≤ 1
unfolding refund
refund-refunded_once io recorded key charge_id amount p v k =
    elim (Bool-cases (any (refund_keyed key) p.refunds)) [
      | inl taken ↦ ground (arith, v.refunded_once k)
      | inr free ↦ elim (Bool-cases (key == k)) [
        | inl same ↦
            let none_yet =
              subst (λ i. count (refund_keyed i) p.refunds ≡ 0) ((==_iff key k).0 same)
                (any-false-count (refund_keyed key) p.refunds free) in
            ground (arith, v.refunded_once k, none_yet)
        | inr other ↦ ground (arith, v.refunded_once k)
      ]
    ]

charge-refunds :
    (io : Io) (recorded declines : Bool) (key : Option ℕ) (order_id amount now : ℕ) (p : Provider)
    → (charge io recorded declines key order_id amount now p).1.refunds ≡ p.refunds
unfolding charge
charge-refunds io recorded declines key order_id amount now p = ground arith

refund-charges :
    (io : Io) (recorded : Bool) (key charge_id amount : ℕ) (p : Provider)
    → (refund io recorded key charge_id amount p).1.charges ≡ p.charges
unfolding refund
refund-charges io recorded key charge_id amount p = ground arith

pub serve-IsValid : (r : Request) (p : Provider) → IsValid p → IsValid (serve r p)
serve-IsValid (charges io recorded declines key order_id amount now) p v = record {
  charged_once = charge-charged_once io recorded declines key order_id amount now p v;
  refunded_once = λ k. rw charge-refunds (v.refunded_once k);
}
serve-IsValid (refunds io recorded key charge_id amount) p v = record {
  charged_once = λ k. rw refund-charges (v.charged_once k);
  refunded_once = refund-refunded_once io recorded key charge_id amount p v;
}

-- From a journal in which no key stands twice, no sequence of requests, whatever fails and whatever
-- is recorded without an answer, puts a key twice into the charges or twice into the refunds.
pub serves-IsValid : (rs : List Request) (p : Provider) → IsValid p → IsValid (serves rs p)
serves-IsValid [] p v = v
serves-IsValid (r ∷ rs) p v = serves-IsValid rs (serve r p) (serve-IsValid r p v)

-- The journal holds a charge under the key, and the answer is read off it.
abbrev pub Holds : ℕ → Result ℕ → Provider → Type 0
Holds k r p = (c : ChargeRow) × (find (keyed k) p.charges ≡ some c) × (r ≡ answer c)

conflict-find :
    (key : Option ℕ) (k : ℕ) (cs : List ChargeRow)
    → conflict key cs ≡ false
    → same_key key k ≡ true
    → find (keyed k) cs ≡ none
conflict-find none k cs free same = absurd (cc)
conflict-find (some j) k cs free same =
    subst (λ i. find (keyed i) cs ≡ none) ((==_iff j k).0 same) (any-false-find (keyed j) cs free)

charge-find :
    (io : Io) (recorded declines : Bool) (key : Option ℕ) (order_id amount now : ℕ) (p : Provider)
    (k : ℕ) (c : ChargeRow)
    → find (keyed k) p.charges ≡ some c
    → find (keyed k) (charge io recorded declines key order_id amount now p).1.charges ≡ some c
unfolding charge
charge-find io recorded declines key order_id amount now p k c found =
    ground (arith, conflict-find key k p.charges)

serve-Holds :
    (r : Request) (k : ℕ) (a : Result ℕ) (p : Provider) → Holds k a p → Holds k a (serve r p)
serve-Holds (charges io recorded declines key order_id amount now) k a p (c, found, same) =
    (c, charge-find io recorded declines key order_id amount now p k c found, same)
serve-Holds (refunds io recorded key charge_id amount) k a p (c, found, same) =
    (c, rw refund-charges found, same)

serves-Holds :
    (rs : List Request) (k : ℕ) (a : Result ℕ) (p : Provider)
    → Holds k a p
    → Holds k a (serves rs p)
serves-Holds [] k a p h = h
serves-Holds (r ∷ rs) k a p h = serves-Holds rs k a (serve r p) (serve-Holds r k a p h)

charge-Holds :
    (io : Io) (recorded declines : Bool) (k order_id amount now : ℕ) (p : Provider) (id : ℕ)
    → (charge io recorded declines (some k) order_id amount now p).0 ≡ ok id
    → Holds k (ok id) (charge io recorded declines (some k) order_id amount now p).1
unfolding charge
charge-Holds io recorded declines k order_id amount now p id e =
    elim (Bool-cases (conflict (some k) p.charges)) [
      | inl taken ↦ elim (Option-cases (find (keyed k) p.charges)) [
        | inl missing ↦ absurd (ground arith)
        | inr (c, found) ↦ (c, ground arith, ground arith)
      ]
      | inr free ↦ (
        recorded_charge declines (some k) order_id amount now p,
        ground (arith, ==_refl k),
        ground arith,
      )
    ]

repeat_answers :
    (recorded declines : Bool) (k order_id amount now : ℕ) (q : Provider) (id : ℕ)
    → q.down ≡ false
    → Holds k (ok id) q
    → charge healthy recorded declines (some k) order_id amount now q ≡ (ok id, q)
unfolding charge
repeat_answers recorded declines k order_id amount now q id up (c, found, same) =
    ground (arith, find-any (keyed k) q.charges c found)

status_answers :
    (k : ℕ) (q : Provider) (id : ℕ)
    → q.down ≡ false
    → Holds k (ok id) q
    → charge_status healthy k q ≡ ok (charge_succeeded id)
unfolding charge_status
status_answers k q id up (c, found, same) = ground arith

-- Once a charge under a key has been answered by a charge id, then after any further requests to the
-- provider, failing or not, a repeated charge under that key on an available provider returns the
-- same id, whatever order and amount it names, and writes nothing; and the status query answers that
-- id.
pub charge-again :
    (io : Io) (recorded declines : Bool) (k order_id amount now : ℕ) (p : Provider) (id : ℕ)
    (rs : List Request)
    → (charge io recorded declines (some k) order_id amount now p).0 ≡ ok id
    → let q = serves rs (charge io recorded declines (some k) order_id amount now p).1 in
      q.down ≡ false
      → (recorded' declines' : Bool) (order_id' amount' now' : ℕ)
      → (charge healthy recorded' declines' (some k) order_id' amount' now' q ≡ (ok id, q))
        × (charge_status healthy k q ≡ ok (charge_succeeded id))
charge-again io recorded declines k order_id amount now p id rs e up recorded' declines' o' a' n' =
    let p' = (charge io recorded declines (some k) order_id amount now p).1 in
    let holds =
      serves-Holds rs k (ok id) p'
        (charge-Holds io recorded declines k order_id amount now p id e) in
    (
      repeat_answers recorded' declines' k o' a' n' (serves rs p') id up holds,
      status_answers k (serves rs p') id up holds,
    )
