-- ===== src/Wiring/Bounds.antt =====
-- What `Load` of order-service/internal/config/config.go and `New` of internal/app/app.go let through.
use microservice_architectur.Base.{
  ℕ, ◌*◌, zero, suc, ◌≤◌, ◌<◌, ◌≡◌, ◌≢◌, Option, none, some, [], Result, ok, arith,
}
use microservice_architectur.Service.Place.{ℤ, pos, negsuc}
use microservice_architectur.Breaker.{new}
use microservice_architectur.Worker.Backoff.{backoff}
use microservice_architectur.Worker.Backoff.Bounds.{backoff_bounds}
use microservice_architectur.Worker.Reconcile.{new_reconcile_worker}
use microservice_architectur.Worker.Refund.{new_refund_worker}
use microservice_architectur.Wiring.Config.{
  Variable, Config, Text, positive_or, get_duration, get_int, settings, load, second,
}
use microservice_architectur.Wiring.Startup.{Answers, App, build, new_app, with_reconcile_timing}

positive_or-positive : (fallback : ℕ) (v : Option ℤ) → 0 < fallback → 0 < positive_or fallback v
unfolding positive_or
positive_or-positive fallback none h = h
positive_or-positive fallback (some (pos zero)) h = h
positive_or-positive fallback (some (pos (suc n))) h = omega arith
positive_or-positive fallback (some (negsuc n)) h = h

-- A service that has been built.
pub record IsReady (a : Answers) (app : App) : Type 0 where
  -- what was asked on the way has answered
  pub connected : a.connect ≡ none
  pub postgres : a.postgres_ping ≡ none
  pub redis : a.redis_ping ≡ none
  pub provider : a.fake_provider ≡ none
  pub version : a.latest ≡ ok app.schema_version
  -- the breaker has a threshold and stays open for a while
  pub threshold : 0 < app.cache.threshold
  pub open_for : 0 < app.cache.open_for
  -- the reconciliation has a period and a window, the shutdown a delay
  pub period : 0 < app.recon_every
  pub window : 0 < app.recon_window
  pub drains : 0 < app.drain_delay
  -- a pending payment is given some time
  pub stuck_after : 0 < app.reconciler.stuck_after
  pub expire_after : 0 < app.reconciler.expire_after
  -- each pause of the two workers is above 0 and below its cap
  pub payments_pause :
      (attempts : ℕ)
      → (0 < backoff app.reconciler.retry_base app.reconciler.retry_cap attempts)
        × (backoff app.reconciler.retry_base app.reconciler.retry_cap attempts ≤ 300000000000)
  pub refunds_pause :
      (attempts : ℕ)
      → (0 < backoff app.refunds.retry_base app.refunds.retry_cap attempts)
        × (backoff app.refunds.retry_base app.refunds.retry_cap attempts ≤ 60000000000)

new_app-ok :
    (loaded : Result Config) (a : Answers) (app : App)
    → new_app loaded a ≡ ok app
    → (cfg : Config) × (version : ℕ) × (loaded ≡ ok cfg)
      × (a.connect ≡ none)
      × (a.postgres_ping ≡ none)
      × (a.redis_ping ≡ none)
      × (a.fake_provider ≡ none)
      × (a.latest ≡ ok version)
      × (app ≡ build cfg version)
unfolding new_app
new_app-ok loaded a app e = grind arith

module _ (getenv : Variable → Text) (atoi parse_duration : Text → Option ℤ)
    (port redis : Text) where
  load-ok :
      (cfg : Config)
      → load getenv atoi parse_duration port redis ≡ ok cfg
      → (getenv Variable.database_url ≢ [])
        × (cfg ≡ settings getenv atoi parse_duration port redis (getenv Variable.database_url))
  unfolding load
  load-ok cfg e = ground arith

  duration_positive :
      (key : Variable) (fallback : ℕ)
      → 0 < fallback
      → 0 < get_duration getenv atoi parse_duration port redis key fallback
  unfolding get_duration
  duration_positive key fallback h = positive_or-positive fallback (parse_duration (getenv key)) h

  built-IsReady :
      (a : Answers) (url : Text) (version : ℕ)
      → a.connect ≡ none
      → a.postgres_ping ≡ none
      → a.redis_ping ≡ none
      → a.fake_provider ≡ none
      → a.latest ≡ ok version
      → IsReady a (build (settings getenv atoi parse_duration port redis url) version)
  unfolding build settings get_int with_reconcile_timing new new_reconcile_worker new_refund_worker
  built-IsReady a url version c p r f l = record {
    connected = c;
    postgres = p;
    redis = r;
    provider = f;
    version = l;
    threshold = ground arith;
    open_for = duration_positive Variable.redis_breaker_open_for (5 * second) (omega arith);
    period = duration_positive Variable.reconcile_every (3600 * second) (omega arith);
    window = duration_positive Variable.reconcile_window (172800 * second) (omega arith);
    drains = duration_positive Variable.shutdown_drain_delay (5 * second) (omega arith);
    stuck_after = duration_positive Variable.pay_stuck_after (120 * second) (omega arith);
    expire_after = duration_positive Variable.pay_expire_after (900 * second) (omega arith);
    payments_pause = λ n. backoff_bounds 10000000000 300000000000 n (omega arith);
    refunds_pause = λ n. backoff_bounds 2000000000 60000000000 n (omega arith);
  }

  -- A service that starts is set up soundly, whatever the environment says. If `New` on the settings
  -- that `Load` reads returns an application, then the URL of the database was set; PostgreSQL, Redis
  -- and the provider's tables have answered without an error; the breaker's threshold, its pause, the
  -- period and the window of the reconciliation, the delay of the shutdown and the two ages of pending
  -- payments are above 0; and every pause of the two workers is above 0 and at most 5 minutes for
  -- payments, 1 minute for refunds.
  pub new_app-IsReady :
      (a : Answers) (app : App)
      → new_app (load getenv atoi parse_duration port redis) a ≡ ok app
      → (getenv Variable.database_url ≢ []) × IsReady a app
  new_app-IsReady a app e =
      let (cfg, version, loaded, c, p, r, f, l, same) =
        new_app-ok (load getenv atoi parse_duration port redis) a app e in
      let (there, read) = load-ok cfg loaded in
      (there, rw same (rw read (built-IsReady a (getenv Variable.database_url) version c p r f l)))
