-- ===== src/Wiring/Startup.antt =====
-- `New` of order-service/internal/app/app.go, with the constructors of the workers.
--
-- The parts are what of them has a state or settings of its own in this model. The answers of the
-- libraries and of the other stores are arguments.
use microservice_architectur.Base.{ℕ, ◌*◌, Option, Error, Result, ok, ◌>>=◌, ◌>>◌, attempt}
use microservice_architectur.Breaker.{Breaker, new}
use microservice_architectur.Worker.Reconcile.{ReconcileWorker, new_reconcile_worker}
use microservice_architectur.Worker.Refund.{RefundWorker, new_refund_worker}
use microservice_architectur.Wiring.Config.{Config, Text, second}

-- WithReconcileTiming
unfoldable pub with_reconcile_timing : ℕ → ℕ → ℕ → ℕ → ℕ → ReconcileWorker → ReconcileWorker
with_reconcile_timing stuck_after expire_after retry_base retry_cap max_attempts w = record w {
  stuck_after = stuck_after;
  expire_after = expire_after;
  retry_base = retry_base;
  retry_cap = retry_cap;
  max_attempts = max_attempts;
}

-- The answers on the way: the pool of connections, its Ping, that of Redis, the provider's tables and
-- the number of the last migration.
pub record Answers : Type 0 where
  pub connect : Option Error
  pub postgres_ping : Option Error
  pub redis_ping : Option Error
  pub fake_provider : Option Error
  pub latest : Result ℕ

pub record App : Type 0 where
  pub addr : Text
  pub cache : Breaker
  pub refunds : RefundWorker
  pub reconciler : ReconcileWorker
  pub recon_every : ℕ
  pub recon_window : ℕ
  pub schema_version : ℕ
  pub drain_delay : ℕ

-- The part behind the last answer.
unfoldable pub build : Config → ℕ → App
unfolding with_reconcile_timing
build cfg version = record {
  addr = cfg.port;
  cache = new cfg.redis_breaker_threshold cfg.redis_breaker_open_for;
  refunds = new_refund_worker;
  reconciler =
      with_reconcile_timing cfg.pay_stuck_after cfg.pay_expire_after (10 * second) (300 * second) 10
        new_reconcile_worker;
  recon_every = cfg.reconcile_every;
  recon_window = cfg.reconcile_window;
  schema_version = version;
  drain_delay = cfg.shutdown_drain_delay;
}

-- New
unfoldable pub new_app : Result Config → Answers → Result App
unfolding build
new_app loaded a = do
  cfg ← loaded
  attempt a.connect
  attempt a.postgres_ping
  attempt a.redis_ping
  attempt a.fake_provider
  version ← a.latest
  ok (build cfg version)
