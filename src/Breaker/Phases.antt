-- ===== src/Breaker/Phases.antt =====
-- A specification of the breaker of order-service/internal/breaker/breaker.go as an automaton with three
-- phases, and how the five mutable fields of the code relate to it.
use microservice_architectur.Base.{
  ℕ, ◌+◌, ◌<◌, ◌≡◌, refl, Bool, true, false, List, [], ◌∷◌, arith, ltb, if◌then◌else◌, Option, none,
  some, ap,
}
use microservice_architectur.Breaker.Defs.{
  State, Breaker, new, allow, done, Call, calls_allow, calls_done, step, run,
}
use microservice_architectur.Breaker.Invariant.{IsValid, step-IsValid, new-IsValid}

-- Closed after so many failures in a row; open until a time; one probe under way.
pub data Phase : Type 0 where
  closed_after : ℕ → Phase
  open_until : ℕ → Phase
  probe : Phase

module _ (threshold open_for : ℕ) where
  -- Whether a call may go through, and the phase after the question.
  abbrev pub ask : ℕ → Phase → Bool × Phase
  ask now (closed_after n) = (true, closed_after n)
  ask now (open_until t) = if ltb now t then (false, open_until t) else (true, probe)
  ask now probe = (false, probe)

  -- The phase after the result of a call.
  abbrev pub tell : ℕ → Bool → Phase → Phase
  tell now true (closed_after n) = closed_after 0
  tell now false (closed_after n) =
      if ltb (n + 1) threshold then closed_after (n + 1) else open_until (now + open_for)
  tell now success (open_until t) = open_until t
  tell now true probe = closed_after 0
  tell now false probe = open_until (now + open_for)

  abbrev pub tick : Call → Phase → Phase
  tick (calls_allow now) p = (ask now p).1
  tick (calls_done now success) p = tell now success p

  abbrev pub ticks : List Call → Phase → Phase
  ticks [] p = p
  ticks (c ∷ cs) p = ticks cs (tick c p)

  -- What a sequence of calls is answered, call by call; the report of a result has no answer.
  abbrev pub answer : Call → Phase → Option Bool
  answer (calls_allow now) p = some (ask now p).0
  answer (calls_done now success) p = none

  abbrev pub answers : List Call → Phase → List (Option Bool)
  answers [] p = []
  answers (c ∷ cs) p = answer c p ∷ answers cs (tick c p)

-- The same of the code's methods.
abbrev pub allowed : Call → Breaker → Option Bool
allowed (calls_allow now) b = some (allow now b).0
allowed (calls_done now success) b = none

abbrev pub all_allowed : List Call → Breaker → List (Option Bool)
all_allowed [] b = []
all_allowed (c ∷ cs) b = allowed c b ∷ all_allowed cs (step c b)

abbrev phase_in : State → Breaker → Phase
phase_in State.closed b = closed_after b.failures
phase_in State.open_ b = open_until (b.opened_at + b.open_for)
phase_in State.half_open b = probe

-- The phase that the fields stand for.
abbrev pub phase : Breaker → Phase
phase b = phase_in b.state b

-- In every state that can be reached, `Allow` answers as the automaton does and leaves the phase
-- that it leaves; in particular exactly one call is let through to an open breaker whose time is
-- over, until the result of a call is reported.
allow-ask :
    (now : ℕ) (b : Breaker)
    → IsValid b
    → let (answer, b') = allow now b in
      (answer, phase b') ≡ ask b.threshold b.open_for now (phase b)
unfolding allow
allow-ask now b v = ground arith

done-tell :
    (now : ℕ) (success : Bool) (b : Breaker)
    → IsValid b
    → phase (done now success b) ≡ tell b.threshold b.open_for now success (phase b)
unfolding done
done-tell now true b v = ground arith
done-tell now false b v = ground arith

step-tick :
    (c : Call) (b : Breaker)
    → IsValid b
    → phase (step c b) ≡ tick b.threshold b.open_for c (phase b)
unfolding step
step-tick (calls_allow now) b v = ground arith
step-tick (calls_done now success) b v = done-tell now success b v

step-threshold : (c : Call) (b : Breaker) → (step c b).threshold ≡ b.threshold
unfolding step
step-threshold (calls_allow now) b = ground arith
step-threshold (calls_done now success) b = ground arith

step-open_for : (c : Call) (b : Breaker) → (step c b).open_for ≡ b.open_for
unfolding step
step-open_for (calls_allow now) b = ground arith
step-open_for (calls_done now success) b = ground arith

run-ticks :
    (t o : ℕ) (cs : List Call) (b : Breaker)
    → IsValid b
    → b.threshold ≡ t
    → b.open_for ≡ o
    → phase (run cs b) ≡ ticks t o cs (phase b)
unfolding run
run-ticks t o [] b v et eo = refl
run-ticks t o (c ∷ cs) b v et eo = rw (
  run-ticks t o cs (step c b) (step-IsValid c b v) (rw step-threshold et) (rw step-open_for eo),
  step-tick c b v,
  et,
  eo,
)

allowed-answer :
    (c : Call) (b : Breaker) → IsValid b → allowed c b ≡ answer b.threshold b.open_for c (phase b)
allowed-answer (calls_allow now) b v = ap (λ r. some r.0) (allow-ask now b v)
allowed-answer (calls_done now success) b v = refl

all_allowed-answers :
    (t o : ℕ) (cs : List Call) (b : Breaker)
    → IsValid b
    → b.threshold ≡ t
    → b.open_for ≡ o
    → all_allowed cs b ≡ answers t o cs (phase b)
all_allowed-answers t o [] b v et eo = refl
all_allowed-answers t o (c ∷ cs) b v et eo = rw (
  all_allowed-answers t o cs (step c b) (step-IsValid c b v) (rw step-threshold et)
      (rw step-open_for eo),
  allowed-answer c b v,
  step-tick c b v,
  et,
  eo,
)

-- The breaker refines the automaton: after any sequence of calls on a new breaker with a threshold
-- of at least 1, `Allow` has answered each question of the sequence as the automaton does from
-- `closed` with no failure (so an open breaker refuses, until its time is over, and then lets one
-- call through until a result is reported), and the fields stand for the phase that it reaches.
pub run-new-ticks :
    (threshold open_for : ℕ) (cs : List Call)
    → 0 < threshold
    → (all_allowed cs (new threshold open_for) ≡ answers threshold open_for cs (closed_after 0))
      × (phase (run cs (new threshold open_for)) ≡ ticks threshold open_for cs (closed_after 0))
unfolding new
run-new-ticks threshold open_for cs h = (
  all_allowed-answers threshold open_for cs (new threshold open_for)
      (new-IsValid threshold open_for) (ground arith) refl,
  run-ticks threshold open_for cs (new threshold open_for) (new-IsValid threshold open_for)
      (ground arith) refl,
)
