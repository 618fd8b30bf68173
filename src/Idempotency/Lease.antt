-- ===== src/Idempotency/Lease.antt =====
-- The leases of `Claim`, order-service/internal/repository/idempotency_repo.go.
use microservice_architectur.Base.{
  ℕ, ◌+◌, ◌≤◌, ◌≡◌, refl, Bool, true, false, some, List, [], ◌∷◌, inl, inr, find, update, Result,
  ok, err, Io, arith, ==_refl, ltb, Bool-cases, transact-cases, Option-cases, ap, ◌∙◌,
}
use microservice_architectur.Domain.Payment.{IdempotencyClaim}
use microservice_architectur.Store.Rows.{find-update_elsewhere, find-holds}
use microservice_architectur.Idempotency.{
  RequestRow, has_key, fresh_row, claim, claim_body, claim_row, idempotency_lease,
}

-- The row of a key that was claimed at `now` under this fingerprint.
abbrev pub Leased : ℕ → ℕ → ℕ → List RequestRow → Type 0
Leased key hash now rows =
    (r : RequestRow) × (find (has_key key) rows ≡ some r)
    × (r.completed ≡ false)
    × (r.request_hash ≡ hash)
    × (r.locked_until ≡ now + idempotency_lease)
    × (now ≤ r.expires_at)

find-update_const :
    (key hash now : ℕ) (rows : List RequestRow) (r : RequestRow)
    → find (has_key key) rows ≡ some r
    → find (has_key key) (update (has_key key) (λ _. fresh_row key hash now) rows)
      ≡ some (fresh_row key hash now)
find-update_const key hash now [] r e = cc
find-update_const key hash now (x ∷ xs) r e =
    ground (arith, ==_refl key, find-update_const key hash now xs r)

module _ (io : Io) (key hash now : ℕ) (rows rows' : List RequestRow) (r : RequestRow)
    (c : IdempotencyClaim) (found : find (has_key key) rows ≡ some r)
    (claimed : claim_row io key hash now r rows ≡ ok (c, rows')) (own : c.owner ≡ true) where
  row-taken : Leased key hash now rows'
  unfolding claim_row
  row-taken =
      let same = find-holds (has_key key) rows r found in
      let renewed =
        find-update_elsewhere (has_key key) (has_key key)
          (λ (x : RequestRow). record x { locked_until = now + idempotency_lease }) rows r
          (λ x. refl) found in
      let reused = find-update_const key hash now rows r found in
      elim (Bool-cases (ltb r.expires_at now)) [
        | inl over ↦ (fresh_row key hash now, ground arith, refl, refl, refl, omega arith)
        | inr kept ↦ (
          record r { locked_until = now + idempotency_lease },
          ground arith,
          ground arith,
          ground arith,
          refl,
          ground arith,
        )
      ]

claim_body-Leased :
    (io : Io) (vanished : Bool) (key hash now : ℕ) (rows rows' : List RequestRow)
    (c : IdempotencyClaim)
    → claim_body io vanished key hash now rows ≡ ok (c, rows')
    → c.owner ≡ true
    → Leased key hash now rows'
unfolding claim_body
claim_body-Leased io vanished key hash now rows rows' c e own =
    elim (Option-cases (find (has_key key) rows)) [
      | inl missing ↦
          (fresh_row key hash now, ground (arith, ==_refl key), refl, refl, refl, omega arith)
      | inr (r, found) ↦ row-taken io key hash now rows rows' r c found (ground arith) own
    ]

-- A claim that makes the caller the owner leaves the key leased to it.
pub claim-Leased :
    (io : Io) (vanished : Bool) (key hash now : ℕ) (rows rows' : List RequestRow)
    (c : IdempotencyClaim)
    → claim io vanished key hash now rows ≡ (ok c, rows')
    → c.owner ≡ true
    → Leased key hash now rows'
unfolding claim
claim-Leased io vanished key hash now rows rows' c e own =
    elim (transact-cases (io 0) (claim_body io vanished key hash now) rows) [
      | inl (x, failed) ↦ absurd (ground arith)
      | inr (a, s, body, done) ↦
          claim_body-Leased io vanished key hash now rows rows' c (ground arith) own
    ]

refused_body :
    (io : Io) (vanished : Bool) (key hash now : ℕ) (rows rows' : List RequestRow) (r : RequestRow)
    (c : IdempotencyClaim)
    → find (has_key key) rows ≡ some r
    → r.completed ≡ false
    → now ≤ r.locked_until
    → now ≤ r.expires_at
    → claim_body io vanished key hash now rows ≡ ok (c, rows')
    → (c.owner ≡ false) × (rows' ≡ rows)
unfolding claim_body claim_row
refused_body io vanished key hash now rows rows' r c found open_ locked kept e = ground arith

-- The caller is not made the owner: an error, or a claim that belongs to another.
abbrev pub IsRefused : Result IdempotencyClaim → Type 0
IsRefused (ok c) = c.owner ≡ false
IsRefused (err e) = Unit

refused :
    (io : Io) (vanished : Bool) (key hash now : ℕ) (rows : List RequestRow) (r : RequestRow)
    → find (has_key key) rows ≡ some r
    → r.completed ≡ false
    → now ≤ r.locked_until
    → now ≤ r.expires_at
    → ((claim io vanished key hash now rows).1 ≡ rows)
      × IsRefused (claim io vanished key hash now rows).0
unfolding claim
refused io vanished key hash now rows r found open_ locked kept =
    elim (transact-cases (io 0) (claim_body io vanished key hash now) rows) [
      | inl (x, failed) ↦ (ap (λ p. p.1) failed, rw failed tt)
      | inr (a, s, body, done) ↦
          let (unowned, same) =
            refused_body io vanished key hash now rows s r a found open_ locked kept body in
          (ap (λ p. p.1) done ∙ same, rw done unowned)
    ]

-- A leased key is exclusive: behind a claim that made its caller the owner at time `now`, every claim
-- of the key up to 15 seconds later, before the key's own lifetime ends, with any fingerprint and any
-- failures, changes nothing and makes nobody the owner.
pub claim-exclusive :
    (io : Io) (vanished : Bool) (key hash now : ℕ) (rows rows' : List RequestRow)
    (c : IdempotencyClaim) (r : RequestRow)
    → claim io vanished key hash now rows ≡ (ok c, rows')
    → c.owner ≡ true
    → find (has_key key) rows' ≡ some r
    → (io' : Io) (vanished' : Bool) (hash' later : ℕ) → later ≤ now + idempotency_lease
    → later ≤ r.expires_at
    → let (answer, rows'') = claim io' vanished' key hash' later rows' in
      (rows'' ≡ rows') × IsRefused answer
claim-exclusive io vanished key hash now rows rows' c r e own has io' vanished' hash' later soon
      kept =
    let (r', found, open_, _, locked, _) =
      claim-Leased io vanished key hash now rows rows' c e own in
    let same : r' ≡ r = ground (arith, found, has) in
    refused io' vanished' key hash' later rows' r has (ground (arith, open_, same))
      (ground (arith, soon, locked, same)) kept

owner_body :
    (io : Io) (vanished : Bool) (key hash now : ℕ) (rows rows' : List RequestRow)
    (c : IdempotencyClaim)
    → claim_body io vanished key hash now rows ≡ ok (c, rows')
    → c.owner ≡ true
    → (c.mismatch ≡ false) × (c.busy ≡ false)
unfolding claim_body claim_row
owner_body io vanished key hash now rows rows' c e own = ground arith

pub claim-owner :
    (io : Io) (vanished : Bool) (key hash now : ℕ) (rows rows' : List RequestRow)
    (c : IdempotencyClaim)
    → claim io vanished key hash now rows ≡ (ok c, rows')
    → c.owner ≡ true
    → (c.mismatch ≡ false) × (c.busy ≡ false)
unfolding claim
claim-owner io vanished key hash now rows rows' c e own =
    elim (transact-cases (io 0) (claim_body io vanished key hash now) rows) [
      | inl (x, failed) ↦ absurd (ground arith)
      | inr (a, s, body, done) ↦ owner_body io vanished key hash now rows rows' c (ground arith) own
    ]
