-- ===== src/Breaker.antt =====
-- order-service/internal/breaker/breaker.go: the circuit breaker.
--
-- The mutex makes each method one step, so a method is a function from the state before to the state
-- after. `now` is what the clock says to the call, in nanoseconds; `now.Sub(openedAt) < openFor` is
-- written without subtraction. The calls of `onChange` are kept in `changes`, newest first.
mod Defs
pub mod Invariant
pub mod Phases
pub mod Runs
pub use Defs.{State, Breaker, Call, calls_allow, calls_done, same_state}
unfoldable pub use Defs.{set_state, trip, new, allow, done, step, run}
