-- ===== src/Tests/Ledgers.antt =====
-- Reconciliations at concrete inputs.
use microservice_architectur.Base.{
  Bool, ℕ, ◌+◌, ◌-◌, ◌≡◌, refl, none, some, Option, List, [], ◌∷◌, find, length, Error, Result, ok,
  ◌==◌, arith,
}
use microservice_architectur.Provider.{ListedStatus, ProviderCharge}
use microservice_architectur.Reconciliation.Classify.{Kind, Action, classify, Theirs, TheirStatus}
use microservice_architectur.Reconciliation.Ledgers.{margin, ours_of}
use microservice_architectur.Reconciliation.Job.{JobDb, Report}
use microservice_architectur.Reconciliation.Run.{RunFaults, run}
use microservice_architectur.Reconciliation.Job.Counts.{IsBalanced, run-IsBalanced}
use microservice_architectur.Reconciliation.Job.Items.{items_with, keys_with}
use microservice_architectur.Reconciliation.Keys.{HasEach}
use microservice_architectur.Reconciliation.Ledgers.{ours_by_key, theirs_by_key, provider_keys}
use microservice_architectur.Reconciliation.Job.Settles.{no_faults, Repaired, fix-IsSettled}
use microservice_architectur.Reconciliation.Lease.{LeaseRow, Tick, try_claim, ticks}
use microservice_architectur.Reconciliation.Lease.Period.{ticks-once}
use microservice_architectur.Tests.Stores.{a_payment, one_payment}

-- The provider has charged the payment, and a payment that we do not know.
abbrev two_charges : List ProviderCharge
two_charges =
    record {
      key = some 77;
      charge_id = 40;
      amount = 500;
      status = ListedStatus.charged;
      created_at = 12;
    }
    ∷ record {
      key = some 78;
      charge_id = 41;
      amount = 60;
      status = ListedStatus.charged;
      created_at = 13;
    }
    ∷ []

abbrev lists_two : ℕ → ℕ → Result (List ProviderCharge)
lists_two from to = ok two_charges

abbrev before : JobDb
before = record { db = one_payment; runs = []; items = [] }

abbrev nothing_fails : RunFaults
nothing_fails = record { query = none; insert_run = none; finish = none; key = λ k. no_faults }

abbrev as_given : List ℕ → List ℕ
as_given ks = ks

abbrev outcome : Option Error × (Report × JobDb)
outcome = run lists_two nothing_fails as_given 0 100 before

run-IsBalanced_example :
    (cs : List ProviderCharge) × (lists_two (0 - margin) (100 + margin) ≡ ok cs)
    × (ks : List ℕ) × HasEach 0 100 cs one_payment ks
    × (outcome.1.0.checked ≡ length ks)
    × IsBalanced 0 outcome.1.0 outcome.1.1
    × (id : ℕ) × (find (λ r. r.id == id) outcome.1.1.runs
        ≡ some (record { id = id; finished = some outcome.1.0 }))
    × ((q : ℕ → Kind → ℕ → Bool)
        → items_with q outcome.1.1
          ≡ items_with q before
            + keys_with q
                (ours_by_key 0 100 (provider_keys 0 100 cs) one_payment)
                (theirs_by_key cs)
                id
                ks)
unfolding run classify
run-IsBalanced_example =
    run-IsBalanced lists_two nothing_fails as_given 0 100 before outcome.1.1 outcome.1.0
      (λ p ks. refl) refl

-- The charge that the pending payment stands for.
abbrev their_charge : Theirs
their_charge = record { key = 77; charge_id = 40; amount = 500; status = TheirStatus.charged }

fix-IsSettled_example : Repaired 77 a_payment their_charge one_payment Action.fix_payment_succeeded
unfolding classify ours_of
fix-IsSettled_example =
    fix-IsSettled 77 a_payment their_charge one_payment refl Action.fix_payment_succeeded refl
      (λ e. ground arith) (λ e. ground arith) (λ e. refl)

abbrev a_lease : List LeaseRow
a_lease = record { name = 1; next_run_at = 5 } ∷ record { name = 2; next_run_at = 0 } ∷ []

abbrev next_lease : List LeaseRow
next_lease = record { name = 1; next_run_at = 70 } ∷ record { name = 2; next_run_at = 0 } ∷ []

abbrev first_tick : Tick
first_tick = record { fault = none; now = 10; to = 11 }

-- Two other replicas, one of which cannot reach the database.
abbrev other_ticks : List Tick
other_ticks =
    record { fault = none; now = 30; to = 29 }
    ∷ record { fault = some Error.canceled; now = 69; to = 70 }
    ∷ []

-- A job that counts its runs.
abbrev counts : ℕ → ℕ → ℕ → ℕ
counts from to n = n + 1

ticks-once_example :
    ticks counts 1 60 100 (first_tick ∷ other_ticks) (a_lease, 0)
    ≡ (next_lease, counts (11 - 100) 11 0)
unfolding try_claim
ticks-once_example =
    ticks-once counts 1 60 100 first_tick other_ticks a_lease next_lease 0 refl refl
      (omega arith, (omega arith, tt))
