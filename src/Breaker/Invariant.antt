-- ===== src/Breaker/Invariant.antt =====
-- What holds of a circuit breaker between two calls, whatever calls were made before.
use microservice_architectur.Base.{ℕ, ◌<◌, ◌≡◌, ◌≢◌, ◌↔◌, true, false, List, [], ◌∷◌, arith}
use microservice_architectur.Breaker.Defs.{
  State, Breaker, same_state, new, step, run, Call, calls_allow, calls_done,
}

-- The recorded transitions, newest first, form one chain from `closed` to the present state, and
-- none of them leads from a state to itself.
abbrev pub Chain : State → List (State × State) → Type 0
Chain s [] = s ≡ State.closed
Chain s ((from, to) ∷ older) = (to ≡ s) × (same_state from to ≡ false) × Chain from older

pub record IsValid (b : Breaker) : Type 0 where
  pub below_threshold : b.failures < b.threshold
  pub probe_iff_half_open : (b.probing ≡ true) ↔ (b.state ≡ State.half_open)
  pub only_closed_counts : b.state ≢ State.closed → b.failures ≡ 0
  pub chained : Chain b.state b.changes

pub new-IsValid : (threshold open_for : ℕ) → IsValid (new threshold open_for)
unfolding new
new-IsValid threshold open_for = ground arith

-- One call of a method keeps the invariant.
pub step-IsValid : (c : Call) (b : Breaker) → IsValid b → IsValid (step c b)
unfolding step
step-IsValid (calls_allow now) b v = ground arith
step-IsValid (calls_done now success) b v = ground arith

run-IsValid : (cs : List Call) (b : Breaker) → IsValid b → IsValid (run cs b)
unfolding run
run-IsValid [] b v = v
run-IsValid (c ∷ cs) b v = run-IsValid cs (step c b) (step-IsValid c b v)

-- After any sequence of calls on a new breaker, at any times: the failure count is below the
-- threshold and is 0 unless the breaker is closed, a probe is under way exactly in the half-open
-- state, and the reported transitions form one chain from `closed` to the present state without a
-- step from a state to itself.
pub run-new-IsValid :
    (threshold open_for : ℕ) (cs : List Call) → IsValid (run cs (new threshold open_for))
run-new-IsValid threshold open_for cs =
    run-IsValid cs (new threshold open_for) (new-IsValid threshold open_for)
