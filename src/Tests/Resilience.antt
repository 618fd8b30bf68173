-- ===== src/Tests/Resilience.antt =====
-- Runs of the breaker, the cache's guard, the retries, the workers' pauses, the outbox relay and the
-- reconciliation at concrete inputs.
use microservice_architectur.Base.{
  ℕ, zero, suc, ◌*◌, ◌^◌, ◌≤◌, ◌<◌, ◌≡◌, ◌↔◌, ◌⊎◌, ◌==◌, inl, inr, refl, true, false, Option, none,
  some, List, [], ◌∷◌, PgCode, Error, arith, healthy,
}
use Prim.Native.Nat.{min}
use microservice_architectur.Domain.Payment.{PaymentStatus}
use microservice_architectur.Breaker.{Breaker, State, Call, calls_allow, calls_done, new, run}
use microservice_architectur.Breaker.Invariant.{IsValid, new-IsValid}
use microservice_architectur.Breaker.Phases.{
  phase, run-new-ticks, ticks, closed_after, all_allowed, answers,
}
use microservice_architectur.Cache.{guard, is_redis_failure, Reply, value, CacheError}
use microservice_architectur.Cache.Guard.{
  Command, guards, guards-harmless_stay, guard-no_probe_left,
}
use microservice_architectur.Retry.{do_, is_retryable}
use microservice_architectur.Retry.Bounds.{total, after, delay_pos, do_-Settles, do_-bounded}
use microservice_architectur.Worker.Backoff.{backoff, delays, next_delay, Round, max_backoff}
use microservice_architectur.Worker.Backoff.Bounds.{fails, backoff_bounds, relay_delays}
use microservice_architectur.Worker.Outbox.{Outbox, Entry, all_written, per_message, process_batch}
use microservice_architectur.Worker.Outbox.Loop.{Turn, Relay, turns}
use microservice_architectur.Worker.Outbox.Waiting.{IsThere}
use microservice_architectur.Worker.Outbox.Kept.{AcknowledgedIn, turns-IsThere}
use microservice_architectur.Worker.Outbox.Conservation.{events, process_batch-events}
use microservice_architectur.Reconciliation.Classify.{
  Ours, Theirs, TheirStatus, RefundState, classify, matched, fix_payment_succeeded,
}
use microservice_architectur.Reconciliation.Agreement.{
  Agree, Justified, classify-Agree, classify-safe,
}

-- Two failures, a question while the breaker is open, the probe and its success.
abbrev some_calls : List Call
some_calls =
    calls_allow 1
    ∷ calls_done 2 false
    ∷ calls_done 3 false
    ∷ calls_allow 4
    ∷ calls_allow 20
    ∷ calls_done 21 true
    ∷ []

run-new-ticks_example :
    (all_allowed some_calls (new 2 10) ≡ answers 2 10 some_calls (closed_after 0))
    × (phase (run some_calls (new 2 10)) ≡ ticks 2 10 some_calls (closed_after 0))
run-new-ticks_example = run-new-ticks 2 10 some_calls (omega arith)

abbrev an_open_breaker : Breaker
an_open_breaker = record {
  threshold = 2;
  open_for = 10;
  state = State.open_;
  failures = 0;
  opened_at = 3;
  probing = false;
  changes = [];
}

abbrev a_hit : Command ℕ
a_hit = record { ctx_over = false; start = 1; end = 2; answer = value 7 }

abbrev a_timeout : Command ℕ
a_timeout = record {
  ctx_over = false;
  start = 1;
  end = 2;
  answer = Reply.error (CacheError.failure 3);
}

abbrev a_cancelled : Command ℕ
a_cancelled = record {
  ctx_over = true;
  start = 1;
  end = 2;
  answer = Reply.error CacheError.canceled;
}

guards-harmless_stay_example :
    (n : ℕ) × (guards (a_hit ∷ a_cancelled ∷ []) (some (new 2 10))
      ≡ some (record (new 2 10) { failures = n }))
unfolding is_redis_failure new
guards-harmless_stay_example =
    guards-harmless_stay (a_hit ∷ a_cancelled ∷ []) (new 2 10)
      (inl (7, refl), (inr (inr (refl, refl)), tt)) refl

guard-no_probe_left_example :
    (b' : Breaker) × ((guard false 1 2 a_timeout.answer (some (new 1 10))).breaker ≡ some b')
    × IsValid b'
    × (b'.probing ≡ false)
unfolding new
guard-no_probe_left_example = guard-no_probe_left a_timeout (new 1 10) (new-IsValid 1 10) refl

-- Two conflicts, then success.
abbrev conflicts_twice : ℕ → Option Error × ℕ
conflicts_twice zero = (some (Error.pg PgCode.serialization_failure), 1)
conflicts_twice (suc zero) = (some (Error.pg PgCode.deadlock_detected), 2)
conflicts_twice (suc (suc n)) = (none, 3)

do_-Settles_example :
    let o = do_ conflicts_twice (λ k. none) (λ k. 4) 0 in
    (o.result ≡ none) × (o.world ≡ 3) × (o.retries ≡ 2)
unfolding is_retryable
do_-Settles_example =
    do_-Settles conflicts_twice (λ k. none) (λ k. 4) 2 0 (λ k. refl) (omega arith)
      (
        (Error.pg PgCode.serialization_failure, refl, refl),
        ((Error.pg PgCode.deadlock_detected, refl, refl), tt),
      )
      tt

do_-bounded_example :
    let o = do_ conflicts_twice (λ k. none) (λ k. 0) 0 in
    (calls : ℕ) × (0 < calls)
    × (calls ≤ 6)
    × (o.world ≡ after conflicts_twice calls 0)
    × (o.retries ≤ 5)
    × (total o.pauses ≤ 620)
do_-bounded_example = do_-bounded conflicts_twice (λ k. none) (λ k. 0) 0 delay_pos

backoff_bounds_example :
    (0 < backoff 10000000000 300000000000 60) × (backoff 10000000000 300000000000 60 ≤ 300000000000)
backoff_bounds_example = backoff_bounds 10000000000 300000000000 60 (omega arith)

relay_delays_example :
    (delays 500 500 (Round.failed ∷ Round.published 100 ∷ []) ≤ max_backoff)
    × (delays 500 0 (fails 4) ≡ min (500 * 2 ^ 3) max_backoff)
unfolding delays next_delay
relay_delays_example = relay_delays 500 3 (Round.failed ∷ Round.published 100 ∷ []) (omega arith)

abbrev an_outbox : Outbox
an_outbox = record {
  rows =
      record { id = 1; aggregate_id = 5; payload = 0; published_at = none; retry_count = 4 }
      ∷ record { id = 2; aggregate_id = 6; payload = 0; published_at = none; retry_count = 0 }
      ∷ [];
  dlq = [];
}

process_batch-events_example :
    events
      (λ aggregate_id payload. aggregate_id == 5)
      (process_batch healthy
        (λ id. false)
        9
        (per_message (Entry.poison ∷ Entry.acknowledged ∷ []))
        an_outbox).1
    ≡ 1
process_batch-events_example =
    process_batch-events (λ aggregate_id payload. aggregate_id == 5) healthy (λ id. false) 9
      (per_message (Entry.poison ∷ Entry.acknowledged ∷ [])) an_outbox

-- Kafka refuses the first event for good and takes the second; a minute later the table is cleaned.
abbrev two_turns : List Turn
two_turns =
    record {
      io = healthy;
      locked = λ id. false;
      answer = per_message (Entry.poison ∷ Entry.temporary ∷ []);
      now = 9;
      later = 10;
      cleanup_io = healthy;
    }
    ∷ record {
      io = healthy;
      locked = λ id. false;
      answer = all_written;
      now = 90000000000;
      later = 90000000001;
      cleanup_io = healthy;
    }
    ∷ []

abbrev a_relay : Relay
a_relay = record { outbox = an_outbox; delay = 500000000; last_cleanup = 0 }

turns-IsThere_example :
    IsThere 1 5 0 (turns two_turns a_relay).outbox ⊎ AcknowledgedIn 1 5 0 two_turns a_relay
turns-IsThere_example = turns-IsThere 1 5 0 two_turns a_relay (inl refl)

abbrev our_pending : Ours
our_pending = record {
  payment_id = 1;
  order_id = 2;
  key = 3;
  amount = 500;
  status = PaymentStatus.pending;
  charge_id = none;
  refund_id = 0;
  refund_status = RefundState.absent;
}

abbrev their_charge : Theirs
their_charge = record { key = 3; charge_id = 8; amount = 500; status = TheirStatus.charged }

classify-Agree_example :
    ((classify (some our_pending) (some their_charge)).kind ≡ matched)
    ↔ Agree (some our_pending) (some their_charge)
classify-Agree_example = classify-Agree (some our_pending) (some their_charge)

classify-safe_example : Justified fix_payment_succeeded our_pending their_charge
unfolding classify
classify-safe_example = classify-safe our_pending their_charge
