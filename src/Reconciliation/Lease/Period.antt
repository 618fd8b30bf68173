-- ===== src/Reconciliation/Lease/Period.antt =====
-- The period of a lease of order-service/internal/repository/job_lease.go.
use microservice_architectur.Base.{
  ℕ, ◌+◌, ◌-◌, ◌≤◌, ◌<◌, ◌≡◌, refl, ap, ◌∙◌, sym, Bool, true, Option, none, some, List, [], ◌∷◌,
  ◌==◌, leb, update, count, All, Error, ok, arith, inl, inr, Bool-cases, Option-cases,
}
use microservice_architectur.Store.Rows.{All-imp}
use microservice_architectur.Reconciliation.Lease.{
  LeaseRow, Tick, is_due, try_claim, tick, ticks, after_claim,
}

abbrev pub is_named : ℕ → LeaseRow → Bool
is_named name r = r.name == name

count-update_none {ℓ} :
    {A : Type ℓ} (p : A → Bool) (f : A → A) (xs : List A) → count p xs ≡ 0 → update p f xs ≡ xs
count-update_none p f [] e = refl
count-update_none p f (x ∷ xs) e = elim (Bool-cases (p x)) [
  | inl t ↦ absurd (ground arith)
  | inr t ↦ rw t (ap (λ ys. x ∷ ys) (count-update_none p f xs (ground arith)))
]

due-le-named :
    (name now : ℕ) (rows : List LeaseRow)
    → count (is_due name now) rows ≤ count (is_named name) rows
due-le-named name now [] = omega arith
due-le-named name now (r ∷ rows) = ground (arith, due-le-named name now rows)

-- If all rows with the name were due, then none is before the period is over.
claimed-count :
    (name now every later : ℕ) (rows : List LeaseRow)
    → count (is_due name now) rows ≡ count (is_named name) rows
    → later < now + every
    → count
        (is_due name later)
        (update (is_due name now) (λ r. record r { next_run_at = now + every }) rows)
      ≡ 0
claimed-count name now every later [] e before = refl
claimed-count name now every later (r ∷ rows) e before =
    let le = due-le-named name now rows in
    elim (Bool-cases (r.name == name)) [
      | inr n ↦ ground (arith, claimed-count name now every later rows)
      | inl n ↦ elim (Bool-cases (leb r.next_run_at now)) [
        | inl d ↦ ground (arith, claimed-count name now every later rows)
        | inr d ↦ absurd (ground arith)
      ]
    ]

try_claim-ok :
    (fault : Option Error) (name every now : ℕ) (rows rows' : List LeaseRow)
    → try_claim fault name every now rows ≡ (ok true, rows')
    → (count (is_due name now) rows ≡ 1)
      × (rows' ≡ update (is_due name now) (λ r. record r { next_run_at = now + every }) rows)
unfolding try_claim
try_claim-ok (some e) name every now rows rows' h = absurd (ground arith)
try_claim-ok none name every now rows rows' h = (ground arith, ground arith)

module _ {ℓ} {S : Type ℓ} (run : ℕ → ℕ → S → S) (name every window : ℕ) where
  -- A tick that finds no row due changes nothing.
  tick-idle :
      (t : Tick) (rows : List LeaseRow) (s : S)
      → count (is_due name t.now) rows ≡ 0
      → tick run name every window t (rows, s) ≡ (rows, s)
  unfolding tick try_claim after_claim
  tick-idle t rows s idle = elim (Option-cases t.fault) [
    | inr (e, f) ↦ rw (f, tick) refl
    | inl f ↦
        rw (f, tick)
          (rw idle (ap (λ rs. (rs, s)) (count-update_none (is_due name t.now) _ rows idle)))
  ]

  ticks-idle :
      (ts : List Tick) (rows : List LeaseRow) (s : S)
      → All (λ (t : Tick). count (is_due name t.now) rows ≡ 0) ts
      → ticks run name every window ts (rows, s) ≡ (rows, s)
  unfolding ticks
  ticks-idle [] rows s idle = refl
  ticks-idle (t ∷ ts) rows s idle =
      ap (ticks run name every window ts) (tick-idle t rows s idle.0) ∙ ticks-idle ts rows s idle.1

  -- The job runs once in a period, whatever the number of replicas. If a claim succeeds, and the lease
  -- has one row, then the tick that made it runs the job, and no tick that the database serves before
  -- the period is over, of whichever replica and with whatever failures, runs it again or moves the
  -- lease: the rows and the job's state stay as the first tick left them.
  pub ticks-once :
      (t : Tick) (ts : List Tick) (rows rows' : List LeaseRow) (s : S)
      → count (is_named name) rows ≡ 1
      → try_claim t.fault name every t.now rows ≡ (ok true, rows')
      → All (λ (u : Tick). u.now < t.now + every) ts
      → ticks run name every window (t ∷ ts) (rows, s) ≡ (rows', run (t.to - window) t.to s)
  unfolding ticks tick after_claim
  ticks-once t ts rows rows' s one claimed early =
      let (all_due, moved) = try_claim-ok t.fault name every t.now rows rows' claimed in
      let first = ap (λ r. after_claim run name every window t.to r s) claimed in
      ap (ticks run name every window ts) first
      ∙ ticks-idle ts rows' (run (t.to - window) t.to s) (
          All-imp (λ (u : Tick). u.now < t.now + every) _ ts
            (λ u before.
              rw moved (claimed-count name t.now every u.now rows (all_due ∙ sym one) before))
            early)
