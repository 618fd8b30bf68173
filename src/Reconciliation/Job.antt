-- ===== src/Reconciliation/Job.antt =====
-- The loop of `Run` of order-service/internal/reconciliation/job.go over the keys of the two ledgers.
--
-- `KeyFaults` says which statements fail; those for one key are told by the key. The notes, the metrics
-- and the columns that repeat the two records are left out.
pub mod Items
pub mod Counts
pub mod Repair
pub mod After
pub mod Settles
use microservice_architectur.Base.{
  ℕ, zero, suc, ◌+◌, ◌-◌, Bool, true, false, not, ◌&&◌, ◌||◌, Option, none, some, List, [], ◌∷◌,
  ◌++◌, ◌==◌, leb, ltb, if◌then◌else◌, find, select, update, any, map, Error, Result, ok, err,
  ◌>>=◌, ◌>>◌, Io, attempt,
}
use microservice_architectur.Domain.Payment.{PaymentStatus}
use microservice_architectur.Domain.Payment
use microservice_architectur.Store.{Db, PaymentRow, RefundRow, RefundStatus}
use microservice_architectur.Payments.Transition.{transition}
use microservice_architectur.Provider.{ListedStatus, ProviderCharge}
use microservice_architectur.Reconciliation.Classify.{
  Kind, Action, RefundState, Ours, TheirStatus, Theirs, Finding, classify,
}
use microservice_architectur.Reconciliation.Ledgers.{
  margin, theirs_by_key, provider_keys, ours_by_key, our_keys, distinct,
}
use microservice_architectur.Reconciliation.Fix.{KeyFaults, fix}

-- The column `action` of reconciliation_items.
pub data Taken : Type 0 where
  auto_fixed by_hand : Taken

pub record ItemRow : Type 0 where
  pub run_id : ℕ
  pub kind : Kind
  pub action : Taken
  pub key : ℕ

-- ByKind, whose keys are the four kinds of discrepancies.
pub record ByKind : Type 0 where
  pub missing_at_provider : ℕ
  pub missing_at_ours : ℕ
  pub amount_mismatch : ℕ
  pub status_mismatch : ℕ

pub record Report : Type 0 where
  pub run_id : ℕ
  pub checked : ℕ
  pub matched : ℕ
  pub auto_fixed : ℕ
  pub manual : ℕ
  pub by_kind : ByKind

abbrev pub count_kind : Kind → ByKind → ByKind
count_kind Kind.matched b = b
count_kind Kind.missing_at_provider b = record b { missing_at_provider = b.missing_at_provider + 1 }
count_kind Kind.missing_at_ours b = record b { missing_at_ours = b.missing_at_ours + 1 }
count_kind Kind.amount_mismatch b = record b { amount_mismatch = b.amount_mismatch + 1 }
count_kind Kind.status_mismatch b = record b { status_mismatch = b.status_mismatch + 1 }

-- reconciliation_runs; `finished` is what the UPDATE at the end of a run writes.
pub record RunRow : Type 0 where
  pub id : ℕ
  pub finished : Option Report

-- Our store, and the two tables of the job.
pub record JobDb : Type 0 where
  pub db : Db
  pub runs : List RunRow
  pub items : List ItemRow

-- The two repairs of a key that both sides have.
unfoldable pub try_fix : KeyFaults → Action → Option Ours → Option Theirs → Db → Taken × Db
unfolding fix
try_fix f Action.manual ours theirs db = (by_hand, db)
try_fix f a (some ours) (some theirs) db =
    let (r, db') = fix f a ours theirs db in (elim r [ ok u ↦ auto_fixed | err e ↦ by_hand ], db')
try_fix f a none theirs db = (by_hand, db)
try_fix f a (some ours) none db = (by_hand, db)

-- The counts behind `fix`.
abbrev pub counted : Kind → Taken → Report → Report
counted kind auto_fixed rep = record rep { auto_fixed = rep.auto_fixed + 1 }
counted kind by_hand rep = record rep {
  manual = rep.manual + 1;
  by_kind = count_kind kind rep.by_kind;
}

abbrev pub is_matched : Kind → Bool
is_matched Kind.matched = true
is_matched _ = false

-- record
unfoldable pub record_item : Option Error → ItemRow → JobDb → Result JobDb
record_item (some e) i s = err e
record_item none i s = ok (record s { items = i ∷ s.items })

-- One round of the loop over the keys: the report, the tables and the error that ends the run.
unfoldable pub visit :
    KeyFaults → Option Ours → Option Theirs → ℕ → Report × JobDb → Option Error × (Report × JobDb)
unfolding try_fix record_item
visit f ours theirs key (rep, s) =
    let finding = classify ours theirs in
    let rep1 = record rep { checked = rep.checked + 1 } in
    if is_matched finding.kind
    then (none, (record rep1 { matched = rep1.matched + 1 }, s))
    else let (taken, db') = try_fix f finding.action ours theirs s.db in
      let rep2 = counted finding.kind taken rep1 in
      let s2 = record s { db = db' } in
      let row : ItemRow = record {
        run_id = rep.run_id;
        kind = finding.kind;
        action = taken;
        key = key;
      } in
      elim (record_item f.record_fault row s2) [
        | err e ↦ (some e, (rep2, s2))
        | ok s3 ↦ (none, (rep2, s3))
      ]

unfoldable pub visit_all :
    (ℕ → KeyFaults)
    → (ℕ → Option Ours)
    → (ℕ → Option Theirs)
    → List ℕ
    → Report × JobDb
    → Option Error × (Report × JobDb)
unfolding visit
visit_all f ours theirs [] s = (none, s)
visit_all f ours theirs (k ∷ ks) s =
    let (e, s') = visit (f k) (ours k) (theirs k) k s in
    let rest = visit_all f ours theirs ks s' in elim e [ none ↦ rest | some x ↦ (some x, s') ]
