-- ===== src/Retry.antt =====
-- order-service/internal/retry/retry.go: retries after a serialization conflict.
--
-- `fn` is a function from the state of the world to its result and the state after it; Go's nil is
-- `none`. `waits n` is what ends the pause after attempt `n`: `none` if the timer does, `some e` if
-- the context is done first, with its error. `jitter n` is the random number, below the delay.
-- Times are in milliseconds.
pub mod Bounds
use microservice_architectur.Base.{
  ℕ, zero, suc, ◌+◌, ◌*◌, ◌^◌, Bool, true, false, Option, none, some, List, [], ◌∷◌, ◌++◌, ltb,
  if◌then◌else◌, PgCode, Error,
}

abbrev pub max_attempts : ℕ
max_attempts = 5

abbrev pub base_delay : ℕ
base_delay = 10

abbrev pub max_delay : ℕ
max_delay = 500

-- The assertion on the type `*pgconn.PgError` sees no wrapped error.
unfoldable pub is_retryable : Error → Bool
is_retryable (Error.pg PgCode.serialization_failure) = true
is_retryable (Error.pg PgCode.deadlock_detected) = true
is_retryable _ = false

unfoldable pub delay : ℕ → ℕ
delay attempt = let d = base_delay * 2 ^ attempt in if ltb max_delay d then max_delay else d

-- The result, the world after it, the number of retries counted, and the pauses made in full.
pub record Outcome {ℓ} (S : Type ℓ) : Type ℓ where
  pub result : Option Error
  pub world : S
  pub retries : ℕ
  pub pauses : List ℕ

module _ {ℓ} {S : Type ℓ} where
  -- The loop with `left` attempts left, and the last call behind it.
  unfoldable pub attempts :
      (S → Option Error × S) → (ℕ → Option Error) → (ℕ → ℕ) → ℕ → ℕ → ℕ → List ℕ → S → Outcome S
  attempts fn waits jitter zero attempt retries pauses s =
      let (e, s') = fn s in record { result = e; world = s'; retries = retries; pauses = pauses }
  attempts fn waits jitter (suc left) attempt retries pauses s =
      let (r, s') = fn s in
      let pauses' = pauses ++ (delay attempt + jitter attempt) ∷ [] in
      let again = attempts fn waits jitter left (attempt + 1) (retries + 1) pauses' s' in
      elim r [
        | none ↦ record { result = none; world = s'; retries = retries; pauses = pauses }
        | some e ↦
            if is_retryable e
            then elim (waits attempt) [
              | none ↦ again
              | some over ↦ record {
                result = some over;
                world = s';
                retries = retries + 1;
                pauses = pauses;
              }
            ]
            else record { result = some e; world = s'; retries = retries; pauses = pauses }
      ]

  -- Do
  unfoldable pub do_ : (S → Option Error × S) → (ℕ → Option Error) → (ℕ → ℕ) → S → Outcome S
  unfolding attempts
  do_ fn waits jitter s = attempts fn waits jitter max_attempts 0 0 [] s
