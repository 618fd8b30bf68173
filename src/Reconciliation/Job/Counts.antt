-- ===== src/Reconciliation/Job/Counts.antt =====
-- The counts of a run of order-service/internal/reconciliation/job.go.
use microservice_architectur.Base.{
  ℕ, ◌+◌, ◌-◌, ◌≡◌, refl, Bool, true, ◌&&◌, count, sym, ap, ◌∙◌, Option, none, some, List, [], ◌∷◌,
  ◌==◌, find, length, Error, Result, ok, arith, inl, inr, Option-cases, Result-cases, ==_refl,
}
use microservice_architectur.Provider.{ProviderCharge}
use microservice_architectur.Reconciliation.Classify.{Ours, Theirs, Kind, classify}
use microservice_architectur.Reconciliation.Ledgers.{
  margin, ours_by_key, theirs_by_key, provider_keys,
}
use microservice_architectur.Reconciliation.Fix.{KeyFaults}
use microservice_architectur.Reconciliation.Job.{
  JobDb, RunRow, Report, ByKind, ItemRow, visit, visit_all, record_item,
}
use microservice_architectur.Reconciliation.Run.{
  RunFaults, finish_run, work, unless_failed, insert_run, compare_all, keys_of, run, new_report,
}
use microservice_architectur.Reconciliation.Keys.{HasEach, keys_of-HasEach}
use microservice_architectur.Reconciliation.Job.Items.{
  differs, items_with, keys_with, visit-same_run, visit_all_cons, visit_all-items_with,
}

abbrev pub of_kinds : ByKind → ℕ
of_kinds b = b.missing_at_provider + b.missing_at_ours + b.amount_mismatch + b.status_mismatch

-- Every key that was checked is counted once, every discrepancy that is left once by its kind, and
-- there is a row of it for each key that did not match; `n` rows were there before.
pub record IsBalanced (n : ℕ) (rep : Report) (s : JobDb) : Type 0 where
  pub all_counted : rep.checked ≡ rep.matched + rep.auto_fixed + rep.manual
  pub by_kind : of_kinds rep.by_kind ≡ rep.manual
  pub recorded : length s.items + rep.matched ≡ n + rep.checked

visit-IsBalanced :
    (f : KeyFaults) (ours : Option Ours) (theirs : Option Theirs) (key n : ℕ) (rep rep' : Report)
    (s s' : JobDb)
    → IsBalanced n rep s
    → visit f ours theirs key (rep, s) ≡ (none, (rep', s'))
    → IsBalanced n rep' s'
unfolding visit record_item
visit-IsBalanced f ours theirs key n rep rep' s s' b e = ground arith

visit-checked :
    (f : KeyFaults) (ours : Option Ours) (theirs : Option Theirs) (key : ℕ) (rep rep' : Report)
    (s s' : JobDb)
    → visit f ours theirs key (rep, s) ≡ (none, (rep', s'))
    → rep'.checked ≡ rep.checked + 1
unfolding visit record_item
visit-checked f ours theirs key rep rep' s s' e = ground arith

-- The parts of a run that the loop leaves alone.
abbrev IsKept : Report × JobDb → Report × JobDb → Type 0
IsKept (rep, s) (rep', s') = (rep'.run_id ≡ rep.run_id) × (s'.runs ≡ s.runs)

visit_all-IsBalanced :
    (f : ℕ → KeyFaults) (ours : ℕ → Option Ours) (theirs : ℕ → Option Theirs) (ks : List ℕ) (n : ℕ)
    (rep rep' : Report) (s s' : JobDb)
    → IsBalanced n rep s
    → visit_all f ours theirs ks (rep, s) ≡ (none, (rep', s'))
    → IsBalanced n rep' s' × IsKept (rep, s) (rep', s') × (rep'.checked ≡ rep.checked + length ks)
unfolding visit_all
visit_all-IsBalanced f ours theirs [] n rep rep' s s' b e = ground arith
visit_all-IsBalanced f ours theirs (k ∷ ks) n rep rep' s s' b e =
    let ((rep1, s1), one, more) = visit_all_cons f ours theirs k ks (rep, s) (rep', s') e in
    let b1 = visit-IsBalanced (f k) (ours k) (theirs k) k n rep rep1 s s1 b one in
    let (id, runs) = visit-same_run (f k) (ours k) (theirs k) k rep rep1 s s1 one in
    let c = visit-checked (f k) (ours k) (theirs k) k rep rep1 s s1 one in
    let (b', (id', runs'), c') = visit_all-IsBalanced f ours theirs ks n rep1 rep' s1 s' b1 more in
    (b', (id' ∙ id, runs' ∙ runs), omega arith)

unless_failed-ok :
    (r : Option Error × (Report × JobDb)) (next : Report × JobDb → Option Error × (Report × JobDb))
    (t : Report × JobDb)
    → unless_failed r next ≡ (none, t)
    → (s : Report × JobDb) × (r ≡ (none, s)) × (next s ≡ (none, t))
unless_failed-ok (none, s) next t e = (s, refl, e)
unless_failed-ok (some x, s) next t e = absurd (ground arith)

finish_run-ok :
    (fault : Option Error) (rep rep' : Report) (s t : JobDb) (rest : List RunRow)
    → s.runs ≡ record { id = rep.run_id; finished = none } ∷ rest
    → finish_run fault (rep, s) ≡ (none, (rep', t))
    → (rep' ≡ rep)
      × (t.items ≡ s.items)
      × (find (λ r. r.id == rep.run_id) t.runs
          ≡ some (record { id = rep.run_id; finished = some rep }))
unfolding finish_run
finish_run-ok (some x) rep rep' s t rest first e = absurd (ground arith)
finish_run-ok none rep rep' s t rest first e =
    (ground arith, ground arith, ground (arith, ==_refl rep.run_id))

-- A run that ends without an error.
work-IsBalanced :
    (f : RunFaults) (ours : ℕ → Option Ours) (theirs : ℕ → Option Theirs) (keys : List ℕ) (n id : ℕ)
    (s t : JobDb) (rep : Report) (rest : List RunRow)
    → s.runs ≡ record { id = id; finished = none } ∷ rest
    → length s.items ≡ n
    → work f ours theirs keys (new_report id, s) ≡ (none, (rep, t))
    → IsBalanced n rep t
      × (rep.checked ≡ length keys)
      × ((q : ℕ → Kind → ℕ → Bool)
          → items_with q t ≡ items_with q s + keys_with q ours theirs id keys)
      × (find (λ r. r.id == id) t.runs ≡ some (record { id = id; finished = some rep }))
unfolding work
work-IsBalanced f ours theirs keys n id s t rep rest first len e =
    let ((rep1, s1), visited, finished) =
      unless_failed-ok (visit_all f.key ours theirs keys (new_report id, s)) (finish_run f.finish)
        (rep, t) e in
    let start : IsBalanced n (new_report id) s = record {
      all_counted = refl;
      by_kind = refl;
      recorded = omega arith;
    } in
    let (b, (same_id, same_runs), c) =
      visit_all-IsBalanced f.key ours theirs keys n (new_report id) rep1 s s1 start visited in
    let here : s1.runs ≡ record { id = rep1.run_id; finished = none } ∷ rest =
      same_runs ∙ first ∙ ap (λ (i : ℕ). record { id = i; finished = none } ∷ rest) (sym same_id) in
    let (rep_eq, items, row) = finish_run-ok f.finish rep1 rep s1 t rest here finished in
    (
      record {
        all_counted = ground (arith, b.all_counted);
        by_kind = ground (arith, b.by_kind);
        recorded = ground (arith, b.recorded);
      },
      ground (arith, c),
      λ q.
          ap (count (λ (i : ItemRow). q i.run_id i.kind i.key)) items
          ∙ visit_all-items_with q f.key ours theirs keys (new_report id) rep1 s s1 visited,
      ground (arith, row, same_id),
    )

insert_run-ok :
    (fault : Option Error) (s : JobDb) (id : ℕ) (s' : JobDb)
    → insert_run fault s ≡ ok (id, s')
    → (s'.runs ≡ record { id = id; finished = none } ∷ s.runs) × (s'.items ≡ s.items)
unfolding insert_run
insert_run-ok fault s id s' e = ground arith

compare_all-work :
    (f : RunFaults) (order : List ℕ → List ℕ) (from to : ℕ) (cs : List ProviderCharge) (s t : JobDb)
    (rep : Report)
    → compare_all f order from to cs s ≡ (none, (rep, t))
    → (id : ℕ) × (s' : JobDb) × (insert_run f.insert_run s ≡ ok (id, s'))
      × (work f
            (ours_by_key from to (provider_keys from to cs) s.db)
            (theirs_by_key cs)
            (order (keys_of from to cs s.db))
            (new_report id, s')
          ≡ (none, (rep, t)))
unfolding compare_all
compare_all-work f order from to cs s t rep e = elim (Option-cases f.query) [
  | inr (x, failed) ↦ absurd (ground arith)
  | inl fine ↦ elim (Result-cases (insert_run f.insert_run s)) [
    | inl (x, failed) ↦ absurd (ground arith)
    | inr ((id, s'), made) ↦ (id, s', made, ground arith)
  ]
]

-- The order in which a Go map is looked through has each of its keys as often as the map.
abbrev pub Reorders : (List ℕ → List ℕ) → Type 0
Reorders order = (p : ℕ → Bool) (ks : List ℕ) → count p (order ks) ≡ count p ks

length-count : (ks : List ℕ) → length ks ≡ count (λ k. true) ks
length-count [] = refl
length-count (k ∷ ks) = omega (arith, length-count ks)

-- What a run that ends without an error has reported and recorded, in whatever order it took the keys.
-- The keys that it has checked are those of the payments and of the charges made in the period, each
-- key once. Each key is counted once, as matched, as repaired or as left to a person, and those left
-- once by their kind. For any property of a run, a kind and a key, there is one new row with it for
-- each key whose two records did not match and for which this run, their kind and that key have it,
-- and no other new row. And the run's row says that it has finished, with this report.
pub run-IsBalanced :
    (list : ℕ → ℕ → Result (List ProviderCharge)) (f : RunFaults) (order : List ℕ → List ℕ)
    (from to : ℕ) (s t : JobDb) (rep : Report)
    → Reorders order
    → run list f order from to s ≡ (none, (rep, t))
    → (cs : List ProviderCharge) × (list (from - margin) (to + margin) ≡ ok cs)
      × (ks : List ℕ) × HasEach from to cs s.db ks
      × (rep.checked ≡ length ks)
      × IsBalanced (length s.items) rep t
      × (id : ℕ) × (find (λ r. r.id == id) t.runs ≡ some (record { id = id; finished = some rep }))
      × ((q : ℕ → Kind → ℕ → Bool)
          → items_with q t
            ≡ items_with q s
              + keys_with q
                  (ours_by_key from to (provider_keys from to cs) s.db)
                  (theirs_by_key cs)
                  id
                  ks)
unfolding run
run-IsBalanced list f order from to s t rep each e =
    elim (Result-cases (list (from - margin) (to + margin))) [
      | inl (x, failed) ↦ absurd (ground arith)
      | inr (cs, listed) ↦
          let ks = keys_of from to cs s.db in
          let ours = ours_by_key from to (provider_keys from to cs) s.db in
          let (id, s', made, worked) = compare_all-work f order from to cs s t rep (ground arith) in
          let (first, items) = insert_run-ok f.insert_run s id s' made in
          let (b, c, rows, row) =
            work-IsBalanced f _ _ (order ks) (length s.items) id s' t rep s.runs first
              (ap length items) worked in
          (
            cs,
            listed,
            ks,
            keys_of-HasEach from to cs s.db,
            omega (arith, c, length-count (order ks), each (λ k. true) ks, length-count ks),
            b,
            id,
            row,
            λ q. omega (
              arith,
              rows q,
              ap (count (λ (i : ItemRow). q i.run_id i.kind i.key)) items,
              each
                  (λ k.
                    differs ours (theirs_by_key cs) k
                    && q id (classify (ours k) (theirs_by_key cs k)).kind k)
                  ks,
            ),
          )
    ]
