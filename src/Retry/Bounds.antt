-- ===== src/Retry/Bounds.antt =====
-- The retries of order-service/internal/retry/retry.go: how often the function is called, with what
-- result, and for how long.
use microservice_architectur.Base.{
  ℕ, zero, suc, ◌+◌, ◌*◌, ◌≤◌, ◌<◌, ◌≡◌, ◌⊎◌, inl, inr, ap, ◌∙◌, refl, true, false, Option, none,
  some, List, [], ◌∷◌, ◌++◌, arith, Error, sum_by, pow_pos,
}
use microservice_architectur.Retry.{max_attempts, is_retryable, delay, attempts, do_}

pub delay_pos : (n : ℕ) → 0 < delay n
unfolding delay
delay_pos n = grind (arith, pow_pos n)

-- The world after `n` calls.
abbrev pub after {ℓ} : {S : Type ℓ} → (S → Option Error × S) → ℕ → S → S
after fn zero s = s
after fn (suc n) s = after fn n (fn s).1

-- The first `n` calls fail with a conflict.
abbrev pub Conflicts {ℓ} : {S : Type ℓ} → (S → Option Error × S) → ℕ → S → Type 0
Conflicts fn zero s = Unit
Conflicts fn (suc n) s =
    ((e : Error) × ((fn s).0 ≡ some e) × (is_retryable e ≡ true)) × Conflicts fn n (fn s).1

-- What ends the row: success, or an error that is no conflict.
abbrev pub Settles : Option Error → Type 0
Settles none = Unit
Settles (some e) = is_retryable e ≡ false

abbrev pub total : List ℕ → ℕ
total = sum_by (λ n. n)

total-append : (xs : List ℕ) (n : ℕ) → total (xs ++ n ∷ []) ≡ total xs + n
total-append [] n = omega arith
total-append (x ∷ xs) n = omega (arith, total-append xs n)

module _ {ℓ} {S : Type ℓ} (fn : S → Option Error × S) (waits : ℕ → Option Error)
    (jitter : ℕ → ℕ) where
  attempts-Settles :
      (n left attempt retries : ℕ) (pauses : List ℕ) (s : S)
      → ((k : ℕ) → waits k ≡ none)
      → n ≤ left
      → Conflicts fn n s
      → Settles (fn (after fn n s)).0
      → let o = attempts fn waits jitter left attempt retries pauses s in
        (o.result ≡ (fn (after fn n s)).0)
        × (o.world ≡ after fn (suc n) s)
        × (o.retries ≡ retries + n)
  unfolding attempts
  attempts-Settles zero zero attempt retries pauses s w h c e = (refl, refl, omega arith)
  attempts-Settles zero (suc left) attempt retries pauses s w h c e = ground arith
  attempts-Settles (suc n) zero attempt retries pauses s w h c e = absurd (omega arith)
  attempts-Settles (suc n) (suc left) attempt retries pauses s w h c e = ground (
    arith,
    w attempt,
    attempts-Settles n left (attempt + 1) (retries + 1)
        (pauses ++ (delay attempt + jitter attempt) ∷ []) (fn s).1 w (omega arith) c.1 e,
  )

  -- If the first `n` calls of the function meet a conflict, `n` being at most 5, the next one succeeds
  -- or fails with another error, and no context ends a pause, then `Do` returns what that call
  -- returns, after exactly `n + 1` calls and with `n` retries counted.
  pub do_-Settles :
      (n : ℕ) (s : S)
      → ((k : ℕ) → waits k ≡ none)
      → n ≤ max_attempts
      → Conflicts fn n s
      → Settles (fn (after fn n s)).0
      → let o = do_ fn waits jitter s in
        (o.result ≡ (fn (after fn n s)).0) × (o.world ≡ after fn (suc n) s) × (o.retries ≡ n)
  unfolding do_
  do_-Settles n s w h c e =
      let (r, v, k) = attempts-Settles n max_attempts 0 0 [] s w h c e in (r, v, omega (arith, k))

  -- The longest that the remaining pauses can be.
  abbrev budget : ℕ → ℕ → ℕ
  budget zero attempt = 0
  budget (suc left) attempt = 2 * delay attempt + budget left (attempt + 1)

  attempts_cases :
      (left attempt retries : ℕ) (pauses : List ℕ) (s : S)
      → let o = attempts fn waits jitter (suc left) attempt retries pauses s in
        (o
          ≡ attempts fn waits jitter left
              (attempt + 1)
              (retries + 1)
              (pauses ++ (delay attempt + jitter attempt) ∷ [])
              (fn s).1)
        ⊎ ((o.world ≡ (fn s).1) × (o.retries ≤ retries + 1) × (o.pauses ≡ pauses))
  unfolding attempts
  attempts_cases left attempt retries pauses s = grind arith

  attempts-bounded :
      (left attempt retries : ℕ) (pauses : List ℕ) (s : S)
      → ((k : ℕ) → jitter k < delay k)
      → let o = attempts fn waits jitter left attempt retries pauses s in
        (calls : ℕ) × (0 < calls)
        × (calls ≤ left + 1)
        × (o.world ≡ after fn calls s)
        × (o.retries ≤ retries + left)
        × (total o.pauses ≤ total pauses + budget left attempt)
  unfolding attempts
  attempts-bounded zero attempt retries pauses s j =
      (1, omega arith, omega arith, refl, omega arith, omega arith)
  attempts-bounded (suc left) attempt retries pauses s j =
      elim (attempts_cases left attempt retries pauses s) [
        | inl e ↦
            let pauses' = pauses ++ (delay attempt + jitter attempt) ∷ [] in
            let (k, pos, le, world, r, p) =
              attempts-bounded left (attempt + 1) (retries + 1) pauses' (fn s).1 j in
            (
              suc k,
              omega arith,
              omega arith,
              ap (λ o. o.world) e ∙ world,
              rw e (omega arith),
              rw e (omega (arith, j attempt, total-append pauses (delay attempt + jitter attempt))),
            )
        | inr (world, r, p) ↦ (1, omega arith, omega arith, world, omega arith, rw p (omega arith))
      ]

  -- `Do` ends, whatever the function returns and whatever the contexts do: with random parts below
  -- the delays it calls the function at least once and at most 6 times, counts at most 5 retries, and
  -- pauses for at most 620 milliseconds altogether, so the limit of 500 on one delay is never met.
  pub do_-bounded :
      (s : S)
      → ((k : ℕ) → jitter k < delay k)
      → let o = do_ fn waits jitter s in
        (calls : ℕ) × (0 < calls)
        × (calls ≤ 6)
        × (o.world ≡ after fn calls s)
        × (o.retries ≤ 5)
        × (total o.pauses ≤ 620)
  unfolding do_ delay
  do_-bounded s j = attempts-bounded max_attempts 0 0 [] s j

-- What each call keeps, `Do` keeps.
module _ {ℓ κ} {S : Type ℓ} (P : S → Type κ) (fn : S → Option Error × S)
    (keeps : (s : S) → P s → P (fn s).1) (waits : ℕ → Option Error) (jitter : ℕ → ℕ) where
  attempts-keeps :
      (left attempt retries : ℕ) (pauses : List ℕ) (s : S)
      → P s
      → P (attempts fn waits jitter left attempt retries pauses s).world
  unfolding attempts
  attempts-keeps zero attempt retries pauses s p = keeps s p
  attempts-keeps (suc left) attempt retries pauses s p =
      let pauses' = pauses ++ (delay attempt + jitter attempt) ∷ [] in
      let again = attempts-keeps left (attempt + 1) (retries + 1) pauses' (fn s).1 (keeps s p) in
      elim (attempts_cases fn waits jitter left attempt retries pauses s) [
        | inl e ↦ rw e again
        | inr (world, r, p') ↦ rw world (keeps s p)
      ]

  pub do_-keeps : (s : S) → P s → P (do_ fn waits jitter s).world
  unfolding do_
  do_-keeps s p = attempts-keeps max_attempts 0 0 [] s p
