-- ===== src/Reconciliation/Job/Items.antt =====
-- The rows of reconciliation_items that a run of order-service/internal/reconciliation/job.go adds.
use microservice_architectur.Base.{
  ℕ, ◌+◌, ◌≡◌, Bool, not, ◌&&◌, count, ap, Option, none, List, [], ◌∷◌, arith,
}
use microservice_architectur.Reconciliation.Classify.{Ours, Theirs, Kind, classify}
use microservice_architectur.Reconciliation.Fix.{KeyFaults}
use microservice_architectur.Reconciliation.Job.{
  JobDb, Report, ItemRow, is_matched, visit, visit_all, record_item,
}

pub visit-same_run :
    (f : KeyFaults) (ours : Option Ours) (theirs : Option Theirs) (key : ℕ) (rep rep' : Report)
    (s s' : JobDb)
    → visit f ours theirs key (rep, s) ≡ (none, (rep', s'))
    → (rep'.run_id ≡ rep.run_id) × (s'.runs ≡ s.runs)
unfolding visit record_item
visit-same_run f ours theirs key rep rep' s s' e = ground arith

-- The two records under a key do not match.
abbrev pub differs : (ℕ → Option Ours) → (ℕ → Option Theirs) → ℕ → Bool
differs ours theirs k = not (is_matched (classify (ours k) (theirs k)).kind)

-- The rows with a given property of their run, kind and key.
module _ (q : ℕ → Kind → ℕ → Bool) where
  abbrev pub items_with : JobDb → ℕ
  items_with s = count (λ (i : ItemRow). q i.run_id i.kind i.key) s.items

  -- The keys for which the run `id` should have such a row.
  abbrev pub keys_with : (ℕ → Option Ours) → (ℕ → Option Theirs) → ℕ → List ℕ → ℕ
  keys_with ours theirs id ks =
      count (λ k. differs ours theirs k && q id (classify (ours k) (theirs k)).kind k) ks

  visit-items_with :
      (f : KeyFaults) (ours : ℕ → Option Ours) (theirs : ℕ → Option Theirs) (k : ℕ)
      (rep rep' : Report) (s s' : JobDb)
      → visit f (ours k) (theirs k) k (rep, s) ≡ (none, (rep', s'))
      → items_with s' ≡ items_with s + keys_with ours theirs rep.run_id (k ∷ [])
  unfolding visit record_item
  visit-items_with f ours theirs k rep rep' s s' e = ground arith

pub visit_all_cons :
    (f : ℕ → KeyFaults) (ours : ℕ → Option Ours) (theirs : ℕ → Option Theirs) (k : ℕ) (ks : List ℕ)
    (s t : Report × JobDb)
    → visit_all f ours theirs (k ∷ ks) s ≡ (none, t)
    → (u : Report × JobDb) × (visit (f k) (ours k) (theirs k) k s ≡ (none, u))
      × (visit_all f ours theirs ks u ≡ (none, t))
unfolding visit_all
visit_all_cons f ours theirs k ks s t e = grind arith

pub visit_all-items_with :
    (q : ℕ → Kind → ℕ → Bool) (f : ℕ → KeyFaults) (ours : ℕ → Option Ours)
    (theirs : ℕ → Option Theirs) (ks : List ℕ) (rep rep' : Report) (s s' : JobDb)
    → visit_all f ours theirs ks (rep, s) ≡ (none, (rep', s'))
    → items_with q s' ≡ items_with q s + keys_with q ours theirs rep.run_id ks
unfolding visit_all
visit_all-items_with q f ours theirs [] rep rep' s s' e = ground arith
visit_all-items_with q f ours theirs (k ∷ ks) rep rep' s s' e =
    let ((rep1, s1), one, more) = visit_all_cons f ours theirs k ks (rep, s) (rep', s') e in
    let (id, runs) = visit-same_run (f k) (ours k) (theirs k) k rep rep1 s s1 one in
    let rest = visit_all-items_with q f ours theirs ks rep1 rep' s1 s' more in
    omega (
      arith,
      visit-items_with q (f k) ours theirs k rep rep1 s s1 one,
      rest,
      ap (λ i. keys_with q ours theirs i ks) id,
    )
