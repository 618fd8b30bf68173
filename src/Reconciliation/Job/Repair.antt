-- ===== src/Reconciliation/Job/Repair.antt =====
-- The repairs of order-service/internal/reconciliation/job.go and our store.
use microservice_architectur.Base.{
  ℕ, ◌+◌, ◌-◌, ◌≡◌, refl, Option, none, some, List, [], ◌∷◌, Error, Result, ok, err, arith, inl,
  inr, Result-cases, Bool-cases, Option-cases,
}
use microservice_architectur.Domain.Payment.{PaymentStatus, can_transition_payment}
use microservice_architectur.Domain.Payment
use microservice_architectur.Store.{Db, RefundStatus}
use microservice_architectur.Payments.Change.{Changes, here, next, note_refunds}
use microservice_architectur.Payments.Invariant.{IsValid}
use microservice_architectur.Payments.Kept.{Changes-IsValid}
use microservice_architectur.Payments.Operations.{transition-Changes}
use microservice_architectur.Provider.{ProviderCharge}
use microservice_architectur.Reconciliation.Classify.{Action, Ours, Theirs, classify}
use microservice_architectur.Reconciliation.Ledgers.{margin}
use microservice_architectur.Reconciliation.Fix.{
  is_open_refund, KeyFaults, fix, confirm_refund, after_refunded,
}
use microservice_architectur.Reconciliation.Job.{
  JobDb, Report, visit, visit_all, try_fix, record_item,
}
use microservice_architectur.Reconciliation.Run.{
  RunFaults, finish_run, work, insert_run, compare_all, run, new_report, unless_failed,
}

pub confirm_refund-Changes :
    {db0 : Db} (fault : Option Error) (id : ℕ) (db : Db)
    → Changes db0 db
    → Changes db0 (confirm_refund fault id db).1
unfolding confirm_refund
confirm_refund-Changes (some e) id db v = v
confirm_refund-Changes none id db v = next v (
    note_refunds (is_open_refund id) (λ r. record r { status = RefundStatus.succeeded })
      (λ r. (refl, refl)) refl)

after_refunded-Changes :
    {db0 : Db} (fault : Option Error) (id : ℕ) (r : Result (Unit {0}) × Db)
    → Changes db0 r.1
    → Changes db0 (after_refunded fault id r).1
unfolding after_refunded
after_refunded-Changes fault id (err e, db) v = v
after_refunded-Changes fault id (ok u, db) v = confirm_refund-Changes fault id db v

fix-Changes :
    {db0 : Db} (f : KeyFaults) (a : Action) (o : Ours) (t : Theirs) (db : Db)
    → Changes db0 db
    → Changes db0 (fix f a o t db).1
unfolding fix
fix-Changes f Action.fix_payment_succeeded o t db v = transition-Changes _ db v _ _ _ _
fix-Changes f Action.fix_payment_failed o t db v = transition-Changes _ db v _ _ _ _
fix-Changes f Action.no_action o t db v = v
fix-Changes f Action.manual o t db v = v
fix-Changes f Action.fix_refund_succeeded o t db v =
    elim (Bool-cases (Payment.same_status o.status PaymentStatus.succeeded)) [
      | inl e ↦
          rw e (
            after_refunded-Changes f.update_fault o.refund_id _ (transition-Changes _ db v _ _ _ _))
      | inr e ↦ rw e (confirm_refund-Changes f.update_fault o.refund_id db v)
    ]

try_fix-Changes :
    {db0 : Db} (f : KeyFaults) (a : Action) (o : Option Ours) (t : Option Theirs) (db : Db)
    → Changes db0 db
    → Changes db0 (try_fix f a o t db).1
unfolding try_fix
try_fix-Changes f Action.manual o t db v = v
try_fix-Changes f Action.no_action none t db v = v
try_fix-Changes f Action.fix_payment_succeeded none t db v = v
try_fix-Changes f Action.fix_payment_failed none t db v = v
try_fix-Changes f Action.fix_refund_succeeded none t db v = v
try_fix-Changes f Action.no_action (some o) none db v = v
try_fix-Changes f Action.fix_payment_succeeded (some o) none db v = v
try_fix-Changes f Action.fix_payment_failed (some o) none db v = v
try_fix-Changes f Action.fix_refund_succeeded (some o) none db v = v
try_fix-Changes f Action.no_action (some o) (some t) db v = fix-Changes f Action.no_action o t db v
try_fix-Changes f Action.fix_payment_succeeded (some o) (some t) db v =
    fix-Changes f Action.fix_payment_succeeded o t db v
try_fix-Changes f Action.fix_payment_failed (some o) (some t) db v =
    fix-Changes f Action.fix_payment_failed o t db v
try_fix-Changes f Action.fix_refund_succeeded (some o) (some t) db v =
    fix-Changes f Action.fix_refund_succeeded o t db v

visit-Changes :
    {db0 : Db} (f : KeyFaults) (o : Option Ours) (t : Option Theirs) (key : ℕ) (rep : Report)
    (s : JobDb)
    → Changes db0 s.db
    → Changes db0 (visit f o t key (rep, s)).1.1.db
unfolding visit record_item
visit-Changes f o t key rep s v = grind (arith, try_fix-Changes f (classify o t).action o t s.db v)

next-Changes :
    {db0 : Db} (e : Option Error) (s : Report × JobDb) (rest : Option Error × (Report × JobDb))
    → Changes db0 s.1.db
    → Changes db0 rest.1.1.db
    → Changes db0
        (elim e as (λ x. Option Error × (Report × JobDb)) [
          | none ↦ rest
          | some x ↦ (some x, s)
        ]).1.1.db
next-Changes none s rest v w = w
next-Changes (some x) s rest v w = v

visit_all-Changes :
    {db0 : Db} (f : ℕ → KeyFaults) (ours : ℕ → Option Ours) (theirs : ℕ → Option Theirs)
    (ks : List ℕ) (s : Report × JobDb)
    → Changes db0 s.1.db
    → Changes db0 (visit_all f ours theirs ks s).1.1.db
unfolding visit_all
visit_all-Changes f ours theirs [] s v = v
visit_all-Changes f ours theirs (k ∷ ks) (rep, s) v =
    let w = visit-Changes (f k) (ours k) (theirs k) k rep s v in
    next-Changes (visit (f k) (ours k) (theirs k) k (rep, s)).0 _ _ w
      (visit_all-Changes f ours theirs ks (visit (f k) (ours k) (theirs k) k (rep, s)).1 w)

finish_run-Changes :
    {db0 : Db} (fault : Option Error) (s : Report × JobDb)
    → Changes db0 s.1.db
    → Changes db0 (finish_run fault s).1.1.db
unfolding finish_run
finish_run-Changes (some e) (rep, s) v = v
finish_run-Changes none (rep, s) v = v

unless_failed-Changes :
    {db0 : Db} (r : Option Error × (Report × JobDb)) (fault : Option Error)
    → Changes db0 r.1.1.db
    → Changes db0 (unless_failed r (finish_run fault)).1.1.db
unless_failed-Changes (none, s) fault v = finish_run-Changes fault s v
unless_failed-Changes (some e, s) fault v = v

insert_run-db :
    (fault : Option Error) (s : JobDb) (id : ℕ) (s' : JobDb)
    → insert_run fault s ≡ ok (id, s')
    → s'.db ≡ s.db
unfolding insert_run
insert_run-db fault s id s' e = ground arith

compare_all-Changes :
    {db0 : Db} (f : RunFaults) (order : List ℕ → List ℕ) (from to : ℕ) (cs : List ProviderCharge)
    (s : JobDb)
    → Changes db0 s.db
    → Changes db0 (compare_all f order from to cs s).1.1.db
unfolding compare_all work
compare_all-Changes f order from to cs s v = elim (Option-cases f.query) [
  | inr (x, failed) ↦ rw (failed, compare_all) v
  | inl fine ↦
      rw (fine, compare_all)
        (elim (Result-cases (insert_run f.insert_run s)) [
          | inl (x, failed) ↦ rw (failed, compare_all) v
          | inr ((id, s'), made) ↦ rw made (
              unless_failed-Changes _ f.finish (
                visit_all-Changes f.key _ _ _ (new_report id, s')
                  (rw (insert_run-db f.insert_run s id s' made) v)))
        ])
]

pub run-Changes :
    {db0 : Db} (list : ℕ → ℕ → Result (List ProviderCharge)) (f : RunFaults)
    (order : List ℕ → List ℕ) (from to : ℕ) (s : JobDb)
    → Changes db0 s.db
    → Changes db0 (run list f order from to s).1.1.db
unfolding run
run-Changes list f order from to s v = elim (Result-cases (list (from - margin) (to + margin))) [
  | inl (e, failed) ↦ rw (failed, run) v
  | inr (cs, listed) ↦ rw (listed, run) (compare_all-Changes f order from to cs s v)
]

-- A run of the job keeps the payments' invariant on every path: whatever the provider lists or fails to
-- list, in whatever order the keys are taken, and whatever statements fail.
pub run-keeps :
    (list : ℕ → ℕ → Result (List ProviderCharge)) (f : RunFaults) (order : List ℕ → List ℕ)
    (from to : ℕ) (s : JobDb)
    → IsValid s.db
    → IsValid (run list f order from to s).1.1.db
run-keeps list f order from to s v = Changes-IsValid (run-Changes list f order from to s here) v
