-- ===== src/Reconciliation/Keys.antt =====
-- The set of keys that a run of order-service/internal/reconciliation/job.go looks at.
use microservice_architectur.Base.{
  ◌||◌, ◌&&◌, leb, ltb, any, ap, Option-cases, Bool, ℕ, ◌≡◌, ◌≤◌, ◌++◌, refl, subst, true, false,
  count, Bool-cases, ==_iff, ◌∙◌, List, [], ◌∷◌, ◌==◌, arith, inl, inr,
}
use microservice_architectur.Store.{Db, PaymentRow}
use microservice_architectur.Provider.{ProviderCharge}
use microservice_architectur.Reconciliation.Ledgers.{
  has_key, provider_keys, our_keys, mem, distinct,
}
use microservice_architectur.Reconciliation.Run.{keys_of}

distinct-mem : (k : ℕ) (ks : List ℕ) → mem k (distinct ks) ≡ mem k ks
unfolding distinct
distinct-mem k [] = refl
distinct-mem k (j ∷ ks) = elim (Bool-cases (mem j ks)) [
  | inl e ↦
      rw (e, distinct)
        (rw (distinct-mem k ks) (elim (Bool-cases (j == k)) [
          | inl same ↦
              let there : mem k ks ≡ true = subst (λ i. mem i ks ≡ true) ((==_iff j k).0 same) e in
              ground arith
          | inr other ↦ ground arith
        ]))
  | inr e ↦ rw (e, distinct) (ground (arith, distinct-mem k ks))
]

absent-count : (k : ℕ) (ks : List ℕ) → mem k ks ≡ false → count (λ i. i == k) ks ≡ 0
absent-count k [] h = refl
absent-count k (j ∷ ks) h = ground (arith, absent-count k ks)

distinct-once : (k : ℕ) (ks : List ℕ) → count (λ i. i == k) (distinct ks) ≤ 1
unfolding distinct
distinct-once k [] = omega arith
distinct-once k (j ∷ ks) = elim (Bool-cases (mem j ks)) [
  | inl e ↦ rw (e, distinct) (distinct-once k ks)
  | inr e ↦
      rw (e, distinct)
        (elim (Bool-cases (j == k)) [
          | inl same ↦
              let absent : mem k (distinct ks) ≡ false =
                distinct-mem k ks ∙ subst (λ i. mem i ks ≡ false) ((==_iff j k).0 same) e in
              ground (arith, absent-count k (distinct ks) absent)
          | inr other ↦ ground (arith, distinct-once k ks)
        ])
]

-- A payment, or a charge, made in the period has the key.
abbrev pub of_payment : ℕ → ℕ → ℕ → List PaymentRow → Bool
of_payment from to k ps =
    any
      (λ (p : PaymentRow).
        has_key k p.idempotency_key && (leb from p.created_at && ltb p.created_at to))
      ps

abbrev pub of_charge : ℕ → ℕ → ℕ → List ProviderCharge → Bool
of_charge from to k cs =
    any (λ (c : ProviderCharge). has_key k c.key && (leb from c.created_at && ltb c.created_at to))
      cs

mem-append : (k : ℕ) (xs ys : List ℕ) → mem k (xs ++ ys) ≡ mem k xs || mem k ys
mem-append k [] ys = refl
mem-append k (x ∷ xs) ys = ground (arith, mem-append k xs ys)

provider_keys-mem :
    (from to k : ℕ) (cs : List ProviderCharge)
    → mem k (provider_keys from to cs) ≡ of_charge from to k cs
unfolding provider_keys
provider_keys-mem from to k [] = refl
provider_keys-mem from to k (c ∷ cs) = elim (Option-cases c.key) [
  | inl e ↦ rw (e, provider_keys) (provider_keys-mem from to k cs)
  | inr (j, e) ↦ rw (e, provider_keys) (ground (arith, provider_keys-mem from to k cs))
]

our_keys-mem :
    (from to k : ℕ) (keys : List ℕ) (ps : List PaymentRow)
    → (mem k (our_keys from to keys ps) || mem k keys) ≡ (of_payment from to k ps || mem k keys)
unfolding our_keys
our_keys-mem from to k keys [] = refl
our_keys-mem from to k keys (p ∷ ps) = elim (Option-cases p.idempotency_key) [
  | inl e ↦ rw (e, our_keys) (our_keys-mem from to k keys ps)
  | inr (j, e) ↦
      rw (e, our_keys)
        (elim (Bool-cases (j == k)) [
          | inl same ↦
              let both : mem j keys ≡ mem k keys = ap (λ i. mem i keys) ((==_iff j k).0 same) in
              ground (arith, our_keys-mem from to k keys ps)
          | inr other ↦ ground (arith, our_keys-mem from to k keys ps)
        ])
]

-- The keys that a run has to check: the one list has the key of each payment and of each charge made
-- in the period, each key once, and no other.
pub record HasEach (from to : ℕ) (cs : List ProviderCharge) (db : Db) (ks : List ℕ) : Type 0 where
  pub all_keys : (k : ℕ) → mem k ks ≡ (of_payment from to k db.payments || of_charge from to k cs)
  pub once : (k : ℕ) → count (λ i. i == k) ks ≤ 1

pub keys_of-HasEach :
    (from to : ℕ) (cs : List ProviderCharge) (db : Db)
    → HasEach from to cs db (keys_of from to cs db)
unfolding keys_of
keys_of-HasEach from to cs db =
    let pkeys = provider_keys from to cs in
    let ours = our_keys from to pkeys db.payments in
    record {
      all_keys = λ k.
          distinct-mem k (ours ++ pkeys)
          ∙ mem-append k ours pkeys
          ∙ our_keys-mem from to k pkeys db.payments
          ∙ ap (λ b. of_payment from to k db.payments || b) (provider_keys-mem from to k cs);
      once = λ k. distinct-once k (ours ++ pkeys);
    }
