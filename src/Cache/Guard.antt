-- ===== src/Cache/Guard.antt =====
-- The guard of order-service/internal/cache/redis.go under whole sequences of commands.
use microservice_architectur.Base.{
  ℕ, ◌≡◌, refl, Bool, true, false, not, Option, some, List, [], ◌∷◌, arith, All, ap, ◌∙◌, ◌⊎◌, inl,
  inr, Bool-cases,
}
use microservice_architectur.Breaker.{State, Breaker, allow, done, step, calls_allow, calls_done}
use microservice_architectur.Breaker.Invariant.{IsValid, step-IsValid}
use microservice_architectur.Cache.{Reply, value, error, CacheError, is_redis_failure, guard}

-- One command: whether its context is over at the end, the two times, and Redis's answer if asked.
pub record Command {ℓ} (A : Type ℓ) : Type ℓ where
  pub ctx_over : Bool
  pub start : ℕ
  pub end : ℕ
  pub answer : Reply A

allow-IsValid : (now : ℕ) (b : Breaker) → IsValid b → IsValid (allow now b).1
unfolding step
allow-IsValid now b v = step-IsValid (calls_allow now) b v

allow-done-IsValid :
    (start end : ℕ) (success : Bool) (b : Breaker)
    → IsValid b
    → IsValid (done end success (allow start b).1)
unfolding step
allow-done-IsValid start end success b v =
    step-IsValid (calls_done end success) (allow start b).1 (allow-IsValid start b v)

allow-done-probing :
    (start end : ℕ) (success : Bool) (b : Breaker)
    → IsValid b
    → (allow start b).0 ≡ true
    → (done end success (allow start b).1).probing ≡ false
unfolding allow done
allow-done-probing start end success b v e = ground arith

allow-refused-probing :
    (start : ℕ) (b : Breaker)
    → b.probing ≡ false
    → (allow start b).0 ≡ false
    → (allow start b).1.probing ≡ false
unfolding allow
allow-refused-probing start b p e = ground arith

module _ {ℓ} {A : Type ℓ} where
  abbrev pub guards : List (Command A) → Option Breaker → Option Breaker
  guards [] b = b
  guards (c ∷ cs) b = guards cs (guard c.ctx_over c.start c.end c.answer b).breaker

  -- A hit, a miss, or a command that ended because its own context was cancelled.
  abbrev pub IsHarmless : Command A → Type ℓ
  IsHarmless c =
      ((a : A) × (c.answer ≡ value a))
      ⊎ (c.answer ≡ error CacheError.redis_nil)
      ⊎ ((c.answer ≡ error CacheError.canceled) × (c.ctx_over ≡ true))

  harmless-is_redis_failure :
      (c : Command A) → IsHarmless c → is_redis_failure c.ctx_over c.answer ≡ false
  unfolding is_redis_failure
  harmless-is_redis_failure c (inl (a, hit)) = rw hit refl
  harmless-is_redis_failure c (inr (inl miss)) = rw miss refl
  harmless-is_redis_failure c (inr (inr (gone, over))) = rw (gone, over) refl

  guard-closed :
      (c : Command A) (b : Breaker)
      → IsHarmless c
      → b.state ≡ State.closed
      → guard c.ctx_over c.start c.end c.answer (some b)
        ≡ record { reply = c.answer; breaker = some (record b { failures = 0 }); asked = true }
  unfolding guard allow done
  guard-closed c b h s = ground (arith, harmless-is_redis_failure c h)

  -- Commands that Redis answers, by a value or by a miss, and commands that the client gave up never
  -- open a closed breaker: after any sequence of them it differs from before at most in its count.
  pub guards-harmless_stay :
      (cs : List (Command A)) (b : Breaker)
      → All IsHarmless cs
      → b.state ≡ State.closed
      → (n : ℕ) × (guards cs (some b) ≡ some (record b { failures = n }))
  guards-harmless_stay [] b h s = (b.failures, refl)
  guards-harmless_stay (c ∷ cs) b h s =
      let (n, e) = guards-harmless_stay cs (record b { failures = 0 }) h.1 s in
      (n, ap (λ r. guards cs r.breaker) (guard-closed c b h.0 s) ∙ e)

  -- A guarded command leaves no probe behind, whatever Redis answers: on a breaker that any calls can
  -- lead to and that has no probe under way, the command reports its own probe, and the breaker after
  -- it has none under way and is one that calls can lead to.
  pub guard-no_probe_left :
      (c : Command A) (b : Breaker)
      → IsValid b
      → b.probing ≡ false
      → (b' : Breaker) × ((guard c.ctx_over c.start c.end c.answer (some b)).breaker ≡ some b')
        × IsValid b'
        × (b'.probing ≡ false)
  unfolding guard
  guard-no_probe_left c b v p =
      let success = not (is_redis_failure c.ctx_over c.answer) in
      elim (Bool-cases (allow c.start b).0) [
        | inl e ↦ (
          done c.end success (allow c.start b).1,
          ground arith,
          allow-done-IsValid c.start c.end success b v,
          allow-done-probing c.start c.end success b v e,
        )
        | inr e ↦ (
          (allow c.start b).1,
          ground arith,
          allow-IsValid c.start b v,
          allow-refused-probing c.start b p e,
        )
      ]
