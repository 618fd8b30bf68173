-- ===== src/Worker/Outbox/Loop.antt =====
-- The loop of `Run` in order-service/internal/worker/outbox_relay.go, without its gauge.
use microservice_architectur.Base.{
  ℕ, ◌+◌, ◌-◌, Bool, leb, if◌then◌else◌, List, [], ◌∷◌, length, Result, ok, Io,
}
use microservice_architectur.Worker.Backoff.{Round, failed, published, next_delay}
use microservice_architectur.Worker.Outbox.{Outbox, Written, all_written, process_batch, cleanup}

-- In nanoseconds: `interval` is that of NewOutboxRelay.
abbrev pub interval : ℕ
interval = 500000000

abbrev pub retention : ℕ
retention = 86400000000000

abbrev pub cleanup_interval : ℕ
cleanup_interval = 60000000000

-- What happens in one turn of the loop, and when: `now` for the batch, `later` for the cleanup.
pub record Turn : Type 0 where
  pub io : Io
  pub locked : ℕ → Bool
  pub answer : Written
  pub now : ℕ
  pub later : ℕ
  pub cleanup_io : Io

pub record Relay : Type 0 where
  pub outbox : Outbox
  pub delay : ℕ
  pub last_cleanup : ℕ

-- The number and the error of processBatch, as `Run` reads them: an error of Kafka comes back beside
-- the number, but for a batch without rows nothing is written.
unfoldable pub ended : Written → Result (List ℕ × List ℕ) → Round
ended all_written (ok (p, f)) = published (length p)
ended answer (ok ([], [])) = published 0
ended answer r = failed

-- `if time.Since(lastCleanup) >= cleanupInterval`
unfoldable pub clean_if_due : Turn → Relay → Relay
unfolding cleanup
clean_if_due t r =
    if leb (r.last_cleanup + cleanup_interval) t.later
    then record r {
      outbox = cleanup 20 t.cleanup_io (t.later - retention) r.outbox;
      last_cleanup = t.later;
    }
    else r

-- One turn.
unfoldable pub turn : Turn → Relay → Relay
unfolding ended clean_if_due
turn t r =
    let (result, outbox') = process_batch t.io t.locked t.now t.answer r.outbox in
    clean_if_due t (record {
      outbox = outbox';
      delay = next_delay interval r.delay (ended t.answer result);
      last_cleanup = r.last_cleanup;
    })

-- The turns of `Run`, one after the other.
unfoldable pub turns : List Turn → Relay → Relay
unfolding turn
turns [] r = r
turns (t ∷ ts) r = turns ts (turn t r)
