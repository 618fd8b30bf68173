-- ===== src/Breaker/Defs.antt =====
-- The methods of order-service/internal/breaker/breaker.go.
use microservice_architectur.Base.{
  ℕ, ◌+◌, Bool, true, false, List, [], ◌∷◌, ltb, leb, if◌then◌else◌,
}

pub data State : Type 0 where
  closed open_ half_open : State

abbrev pub same_state : State → State → Bool
same_state State.closed State.closed = true
same_state State.open_ State.open_ = true
same_state State.half_open State.half_open = true
same_state _ _ = false

pub record Breaker : Type 0 where
  pub threshold : ℕ
  pub open_for : ℕ
  pub state : State
  pub failures : ℕ
  pub opened_at : ℕ
  pub probing : Bool
  pub changes : List (State × State)

-- A threshold below 1 counts as 1. The `int` is a natural number here: a negative one goes the same
-- way as 0.
unfoldable pub new : ℕ → ℕ → Breaker
new threshold open_for = record {
  threshold = if ltb threshold 1 then 1 else threshold;
  open_for = open_for;
  state = State.closed;
  failures = 0;
  opened_at = 0;
  probing = false;
  changes = [];
}

unfoldable pub set_state : State → Breaker → Breaker
set_state to b =
    if same_state b.state to
    then b
    else record b { state = to; changes = (b.state, to) ∷ b.changes }

unfoldable pub trip : ℕ → Breaker → Breaker
unfolding set_state
trip now b = set_state State.open_ (record b { opened_at = now; failures = 0 })

allow_in : State → ℕ → Breaker → Bool × Breaker
unfolding set_state
allow_in State.open_ now b =
    if ltb now (b.opened_at + b.open_for)
    then (false, b)
    else (true, record (set_state State.half_open b) { probing = true })
allow_in State.half_open now b =
    if b.probing then (false, b) else (true, record b { probing = true })
allow_in State.closed now b = (true, b)

-- `true` stands for nil, `false` for ErrOpen.
unfoldable pub allow : ℕ → Breaker → Bool × Breaker
unfolding allow_in
allow now b = allow_in b.state now b

count_failure : ℕ → Breaker → Breaker
unfolding trip
count_failure now b = if leb b.threshold b.failures then trip now b else b

done_in : State → ℕ → Bool → Breaker → Breaker
unfolding count_failure trip set_state
done_in State.closed now success b =
    if success
    then record b { failures = 0 }
    else count_failure now (record b { failures = b.failures + 1 })
done_in State.half_open now success b =
    if success
    then set_state State.closed (record b { probing = false; failures = 0 })
    else trip now (record b { probing = false })
done_in State.open_ now success b = b

unfoldable pub done : ℕ → Bool → Breaker → Breaker
unfolding done_in
done now success b = done_in b.state now success b

-- A call of a method with the time at which it runs. Goroutines take the mutex in any order, so
-- every list of calls is a run.
pub data Call : Type 0 where
  calls_allow : ℕ → Call
  calls_done : ℕ → Bool → Call

unfoldable pub step : Call → Breaker → Breaker
unfolding allow done
step (calls_allow now) b = (allow now b).1
step (calls_done now success) b = done now success b

unfoldable pub run : List Call → Breaker → Breaker
run [] b = b
run (c ∷ cs) b = run cs (step c b)
