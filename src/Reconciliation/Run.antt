-- ===== src/Reconciliation/Run.antt =====
-- `Run` of order-service/internal/reconciliation/job.go: one run over a period.
--
-- The provider's list is an argument. A Go map is looked through in any order: `order` is the order in
-- which this run takes the keys. `RunFaults` says which statements fail.
use microservice_architectur.Base.{
  ℕ, suc, ◌+◌, ◌-◌, Option, none, some, List, [], ◌∷◌, ◌++◌, ◌==◌, update, Error, Result, ok, err,
}
use microservice_architectur.Store.{Db}
use microservice_architectur.Provider.{ProviderCharge}
use microservice_architectur.Reconciliation.Classify.{Ours, Theirs}
use microservice_architectur.Reconciliation.Ledgers.{
  margin, theirs_by_key, provider_keys, ours_by_key, our_keys, distinct,
}
use microservice_architectur.Reconciliation.Fix.{KeyFaults}
use microservice_architectur.Reconciliation.Job.{JobDb, RunRow, Report, visit_all}

-- What fails in a run: the query of our payments, the two statements on reconciliation_runs, and the
-- work on each key.
pub record RunFaults : Type 0 where
  pub query : Option Error
  pub insert_run : Option Error
  pub finish : Option Error
  pub key : ℕ → KeyFaults

abbrev pub new_report : ℕ → Report
new_report id = record {
  run_id = id;
  checked = 0;
  matched = 0;
  auto_fixed = 0;
  manual = 0;
  by_kind = record {
    missing_at_provider = 0;
    missing_at_ours = 0;
    amount_mismatch = 0;
    status_mismatch = 0;
  };
}

-- The newest id of the runs.
abbrev newest_id : List RunRow → ℕ
newest_id [] = 0
newest_id (r ∷ rs) = r.id

-- INSERT INTO reconciliation_runs ... RETURNING id
unfoldable pub insert_run : Option Error → JobDb → Result (ℕ × JobDb)
insert_run (some e) s = err e
insert_run none s = ok (
  suc (newest_id s.runs),
  record s { runs = record { id = suc (newest_id s.runs); finished = none } ∷ s.runs },
)

-- UPDATE reconciliation_runs SET finished_at = NOW(), ... WHERE id = $1
unfoldable pub finish_run : Option Error → Report × JobDb → Option Error × (Report × JobDb)
finish_run (some e) (rep, s) = (some e, (rep, s))
finish_run none (rep, s) = (
  none,
  (
    rep,
    record s {
      runs = update (λ r. r.id == rep.run_id) (λ r. record r { finished = some rep }) s.runs;
    },
  ),
)

abbrev pub unless_failed :
    Option Error × (Report × JobDb)
    → (Report × JobDb → Option Error × (Report × JobDb))
    → Option Error × (Report × JobDb)
unless_failed (none, s) next = next s
unless_failed (some e, s) next = (some e, s)

-- The loop over the keys and the end of the run.
unfoldable pub work :
    RunFaults
    → (ℕ → Option Ours)
    → (ℕ → Option Theirs)
    → List ℕ
    → Report × JobDb
    → Option Error × (Report × JobDb)
unfolding visit_all finish_run
work f ours theirs keys s = unless_failed (visit_all f.key ours theirs keys s) (finish_run f.finish)

-- The set `keys`.
unfoldable pub keys_of : ℕ → ℕ → List ProviderCharge → Db → List ℕ
unfolding provider_keys our_keys distinct
keys_of from to cs db =
    let pkeys = provider_keys from to cs in distinct (our_keys from to pkeys db.payments ++ pkeys)

-- Run over a list of the provider's charges that has been fetched.
unfoldable pub compare_all :
    RunFaults
    → (List ℕ → List ℕ)
    → ℕ
    → ℕ
    → List ProviderCharge
    → JobDb
    → Option Error × (Report × JobDb)
unfolding theirs_by_key provider_keys ours_by_key keys_of insert_run work
compare_all f order from to cs s =
    let pkeys = provider_keys from to cs in
    let keys = order (keys_of from to cs s.db) in
    elim f.query [
      | some e ↦ (some e, (new_report 0, s))
      | none ↦ elim (insert_run f.insert_run s) [
        | err e ↦ (some e, (new_report 0, s))
        | ok (id, s') ↦
            work f (ours_by_key from to pkeys s.db) (theirs_by_key cs) keys (new_report id, s')
      ]
    ]

-- Run: the error, the report and the tables. `list` is the provider's ListCharges. Times are natural
-- numbers, so the margin stops at 0.
unfoldable pub run :
    (ℕ → ℕ → Result (List ProviderCharge))
    → RunFaults
    → (List ℕ → List ℕ)
    → ℕ
    → ℕ
    → JobDb
    → Option Error × (Report × JobDb)
unfolding compare_all
run list f order from to s = elim (list (from - margin) (to + margin)) [
  | err e ↦ (some e, (new_report 0, s))
  | ok cs ↦ compare_all f order from to cs s
]
