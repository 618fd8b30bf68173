-- ===== src/Reconciliation/Lease.antt =====
-- order-service/internal/repository/job_lease.go, and the ticks of `RunScheduledOnce` of
-- order-service/internal/reconciliation/job.go on several replicas.
--
-- Times are nanoseconds. The database has one clock; a replica's own clock gives the period of a run.
pub mod Period
use microservice_architectur.Base.{
  ℕ, ◌+◌, ◌-◌, Bool, true, false, ◌&&◌, Option, none, some, List, [], ◌∷◌, ◌==◌, leb, update, count,
  if◌then◌else◌, Error, Result, ok, err,
}

-- job_leases
pub record LeaseRow : Type 0 where
  pub name : ℕ
  pub next_run_at : ℕ

-- WHERE name = $1 AND next_run_at <= now()
abbrev pub is_due : ℕ → ℕ → LeaseRow → Bool
is_due name now r = r.name == name && leb r.next_run_at now

-- TryClaim
unfoldable pub try_claim : Option Error → ℕ → ℕ → ℕ → List LeaseRow → Result Bool × List LeaseRow
try_claim (some e) name every now rows = (err e, rows)
try_claim none name every now rows = (
  ok (count (is_due name now) rows == 1),
  update (is_due name now) (λ r. record r { next_run_at = now + every }) rows,
)

-- A tick of one replica: what fails in its claim, the database's time and its own.
pub record Tick : Type 0 where
  pub fault : Option Error
  pub now : ℕ
  pub to : ℕ

-- `run` is the job over a period, on a state of its own.
module _ {ℓ} {S : Type ℓ} (run : ℕ → ℕ → S → S) (name every window : ℕ) where
  unfoldable pub after_claim : ℕ → Result Bool × List LeaseRow → S → List LeaseRow × S
  after_claim to (err e, rows) s = (rows, s)
  after_claim to (ok false, rows) s = (rows, s)
  after_claim to (ok true, rows) s = (rows, run (to - window) to s)

  -- One round of the loop of RunScheduledOnce.
  unfoldable pub tick : Tick → List LeaseRow × S → List LeaseRow × S
  unfolding try_claim after_claim
  tick t (rows, s) = after_claim t.to (try_claim t.fault name every t.now rows) s

  -- The ticks of all replicas, in the order in which the database serves them.
  unfoldable pub ticks : List Tick → List LeaseRow × S → List LeaseRow × S
  unfolding tick
  ticks [] c = c
  ticks (t ∷ ts) c = ticks ts (tick t c)
