-- ===== src/Cache/Client.antt =====
-- `Get`, `Set` and `Delete` of order-service/internal/cache/redis.go.
--
-- The Redis client is a parameter: a record of its commands on a state of its own, with what its
-- documentation says of them. Which command fails, when an entry expires and whether a command whose
-- answer was lost has been carried out is up to that record. Keys are numbers, and what is stored is a
-- list of bytes; encoding/json is a parameter as well.
use microservice_architectur.Base.{ℕ, ◌≡◌, ◌⊎◌, Bool, Option, none, some, List, if◌then◌else◌}
use microservice_architectur.Breaker.{Breaker}
use microservice_architectur.Cache.{CacheError, Reply, value, error, guard}

-- The client's commands.
pub record Redis (R : Type 0) : Type 0 where
  pub get : ℕ → R → Reply (List ℕ) × R
  pub set : ℕ → List ℕ → R → Reply (Unit {0}) × R
  pub del : ℕ → R → Reply (Unit {0}) × R
  -- what is stored under a key
  pub stored : R → ℕ → Option (List ℕ)
  -- a value that GET answers is stored, and GET stores nothing
  pub get_stored : (k : ℕ) (r : R) (b : List ℕ) → (get k r).0 ≡ value b → stored r k ≡ some b
  pub get_keeps :
      (k : ℕ) (r : R) (k' : ℕ) (b : List ℕ) → stored (get k r).1 k' ≡ some b → stored r k' ≡ some b
  -- SET stores its value under its key and nothing else
  pub set_stores :
      (k : ℕ) (v : List ℕ) (r : R) (k' : ℕ) (b : List ℕ)
      → stored (set k v r).1 k' ≡ some b
      → ((k' ≡ k) × (b ≡ v)) ⊎ (stored r k' ≡ some b)
  -- DEL stores nothing, and once it is answered the key is gone
  pub del_keeps :
      (k : ℕ) (r : R) (k' : ℕ) (b : List ℕ) → stored (del k r).1 k' ≡ some b → stored r k' ≡ some b
  pub del_removes : (k : ℕ) (r : R) → (del k r).0 ≡ value tt → stored (del k r).1 k ≡ none

-- encoding/json for one type of values.
pub record Json (V : Type 0) : Type 0 where
  pub marshal : V → Option (List ℕ)
  pub unmarshal : List ℕ → Option V
  -- what was written is read back
  pub round_trip : (v : V) (b : List ℕ) → marshal v ≡ some b → unmarshal b ≡ some v

-- RedisCache; a `*breaker.Breaker` that is nil is `none`.
pub record RedisCache (R : Type 0) : Type 0 where
  pub client : R
  pub breaker : Option Breaker

-- One command: whether its context is over behind it, and the two times at which the breaker looks at
-- its clock.
pub record Moment : Type 0 where
  pub ctx_over : Bool
  pub start : ℕ
  pub end : ℕ

module _ {R : Type 0} where
  -- A command behind the breaker: the state of Redis changes only if it was asked.
  unfoldable pub guarded {ℓ} :
      {A : Type ℓ} → Moment → (R → Reply A × R) → RedisCache R → Reply A × RedisCache R
  unfolding guard
  guarded m command c =
      let (answer, client') = command c.client in
      let out = guard m.ctx_over m.start m.end answer c.breaker in
      (
        out.reply,
        record { client = if out.asked then client' else c.client; breaker = out.breaker },
      )

  module _ (redis : Redis R) {V : Type 0} (json : Json V) where
    -- What Get makes of the client's answer.
    unfoldable pub decoded : Reply (List ℕ) → Reply V
    decoded (error CacheError.redis_nil) = error CacheError.cache_miss
    decoded (error e) = error e
    decoded (value b) = elim (json.unmarshal b) [
      | none ↦ error CacheError.bad_json
      | some v ↦ value v
    ]

    -- Get
    unfoldable pub get : Moment → ℕ → RedisCache R → Reply V × RedisCache R
    unfolding guarded decoded
    get m key c = let (r, c') = guarded m (redis.get key) c in (decoded r, c')

    -- Set
    unfoldable pub set : Moment → ℕ → V → RedisCache R → Reply (Unit {0}) × RedisCache R
    unfolding guarded
    set m key v c = elim (json.marshal v) [
      | none ↦ (error CacheError.bad_json, c)
      | some bytes ↦ guarded m (redis.set key bytes) c
    ]

  -- Delete: it does not go through the breaker.
  unfoldable pub delete : Redis R → ℕ → RedisCache R → Reply (Unit {0}) × RedisCache R
  delete redis key c =
      let (r, client') = redis.del key c.client in (r, record c { client = client' })
