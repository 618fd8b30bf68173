-- ===== src/Breaker/Runs.antt =====
-- Whole runs of the methods of order-service/internal/breaker/breaker.go: failures in a row, and calls
-- on an open breaker.
use microservice_architectur.Base.{
  ℕ, ◌+◌, ◌<◌, ◌≡◌, refl, ◌∙◌, false, List, [], ◌∷◌, arith, All, length, ap,
}
use microservice_architectur.Breaker.Defs.{
  State, Breaker, new, allow, Call, calls_allow, calls_done, step, run,
}
use microservice_architectur.Breaker.Phases.{phase, closed_after, open_until, ticks, run-new-ticks}

-- Failed calls, reported at the given times.
abbrev pub fail_at : List ℕ → List Call
fail_at [] = []
fail_at (now ∷ times) = calls_done now false ∷ fail_at times

ticks-fail_at :
    (t o k : ℕ) (times : List ℕ)
    → k + length times < t
    → ticks t o (fail_at times) (closed_after k) ≡ closed_after (k + length times)
ticks-fail_at t o k [] h = ground arith
ticks-fail_at t o k (now ∷ times) h = ground (arith, ticks-fail_at t o (k + 1) times)

-- A new breaker with a threshold `t` of at least 1 stays closed, with their number as its count,
-- under fewer than `t` failures in a row, reported at any times.
fail_at-closed :
    (t o : ℕ) (times : List ℕ)
    → length times < t
    → phase (run (fail_at times) (new t o)) ≡ closed_after (length times)
fail_at-closed t o times h =
    (run-new-ticks t o (fail_at times) (omega arith)).1
    ∙ ticks-fail_at t o 0 times (omega arith)
    ∙ ap closed_after (omega arith)

-- Failed calls, reported at the given times and one more at `last`.
abbrev pub fail_at_then : List ℕ → ℕ → List Call
fail_at_then [] last = calls_done last false ∷ []
fail_at_then (now ∷ times) last = calls_done now false ∷ fail_at_then times last

ticks-fail_at_then :
    (t o k : ℕ) (times : List ℕ) (last : ℕ)
    → k + length times + 1 ≡ t
    → ticks t o (fail_at_then times last) (closed_after k) ≡ open_until (last + o)
ticks-fail_at_then t o k [] last h = ground arith
ticks-fail_at_then t o k (now ∷ times) last h =
    ground (arith, ticks-fail_at_then t o (k + 1) times last)

-- The failure that brings a row of failures on a new breaker to the threshold `t` opens it, until
-- `open_for` after the time of that failure.
fail_at_then-opens :
    (t o : ℕ) (times : List ℕ) (last : ℕ)
    → length times + 1 ≡ t
    → phase (run (fail_at_then times last) (new t o)) ≡ open_until (last + o)
fail_at_then-opens t o times last h =
    (run-new-ticks t o (fail_at_then times last) (omega arith)).1
    ∙ ticks-fail_at_then t o 0 times last (omega arith)

-- A question before time `t`; a result may be reported at any time.
abbrev pub Early : ℕ → Call → Type 0
Early t (calls_allow now) = now < t
Early t (calls_done now success) = Unit

step-open_stays :
    (b : Breaker) (c : Call)
    → b.state ≡ State.open_
    → Early (b.opened_at + b.open_for) c
    → step c b ≡ b
unfolding step
step-open_stays b (calls_allow now) o e = ground arith
step-open_stays b (calls_done now success) o e = ground arith

run-open_still :
    (b : Breaker) (cs : List Call)
    → b.state ≡ State.open_
    → All (Early (b.opened_at + b.open_for)) cs
    → run cs b ≡ b
unfolding run
run-open_still b [] o e = refl
run-open_still b (c ∷ cs) o e = ap (run cs) (step-open_stays b c o e.0) ∙ run-open_still b cs o e.1

allow-open_early :
    (b : Breaker) (now : ℕ)
    → b.state ≡ State.open_
    → now < b.opened_at + b.open_for
    → allow now b ≡ (false, b)
unfolding allow
allow-open_early b now o h = ground arith

-- Until `open_for` is over, no sequence of questions and of late results changes an open breaker in
-- any field, and each question after it is answered by ErrOpen.
pub run-open_stays :
    (b : Breaker) (cs : List Call) (now : ℕ)
    → b.state ≡ State.open_
    → All (Early (b.opened_at + b.open_for)) cs
    → now < b.opened_at + b.open_for
    → (run cs b ≡ b) × (allow now (run cs b) ≡ (false, b))
run-open_stays b cs now o e h =
    (run-open_still b cs o e, ap (allow now) (run-open_still b cs o e) ∙ allow-open_early b now o h)
