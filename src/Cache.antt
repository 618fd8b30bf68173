-- ===== src/Cache.antt =====
-- order-service/internal/cache/redis.go: Redis behind the circuit breaker.
--
-- The Redis client is not part of the repository: what it answers to a command is an argument.
-- A `*breaker.Breaker` that is nil is `none`.
pub mod Guard
pub mod Client
use microservice_architectur.Base.{
  ℕ, Bool, true, false, not, Option, none, some, if◌then◌else◌, List, [], ◌∷◌, ◌&&◌,
}
use microservice_architectur.Breaker.{Breaker, allow, done}

-- redis.Nil, context.Canceled, ErrUnavailable, ErrCacheMiss, and any other error.
pub data CacheError : Type 0 where
  redis_nil canceled unavailable cache_miss bad_json : CacheError
  failure : ℕ → CacheError

pub data Reply {ℓ} (A : Type ℓ) : Type ℓ where
  value : A → Reply A
  error : CacheError → Reply A

-- `ctx_over` says that the request's context has an error.
unfoldable pub is_redis_failure {ℓ} : {A : Type ℓ} → Bool → Reply A → Bool
is_redis_failure ctx_over (value a) = false
is_redis_failure ctx_over (error CacheError.redis_nil) = false
is_redis_failure ctx_over (error CacheError.canceled) = not ctx_over
is_redis_failure ctx_over (error e) = true

-- `call` is what Redis answers, if it is asked; `start` and `end` are the times at which the breaker
-- looks at its clock. The last part of the result says whether Redis was asked.
unfoldable pub guard {ℓ} :
    {A : Type ℓ}
    → Bool
    → ℕ
    → ℕ
    → Reply A
    → Option Breaker
    → record { reply : Reply A; breaker : Option Breaker; asked : Bool }
unfolding is_redis_failure
guard ctx_over start end call none = record { reply = call; breaker = none; asked = true }
guard ctx_over start end call (some b) =
    let (allowed, b') = allow start b in
    if allowed
    then record {
      reply = call;
      breaker = some (done end (not (is_redis_failure ctx_over call)) b');
      asked = true;
    }
    else record { reply = error CacheError.unavailable; breaker = some b'; asked = false }
