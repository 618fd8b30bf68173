-- ===== src/Worker/Backoff/Bounds.antt =====
-- Bounds and exact values of the workers' pauses.
use microservice_architectur.Base.{
  ℕ, zero, suc, ◌*◌, ◌-◌, ◌^◌, ◌≤◌, ◌<◌, ◌≡◌, true, false, List, [], ◌∷◌, ltb, arith, Bool-cases,
  inl, inr, pow_pos, ap, ◌∙◌,
}
use Prim.Native.Nat.{◌%◌, min, max}
use native.Mathlib.Nat.{pow-suc}
use microservice_architectur.Worker.Backoff.{
  next_backoff, backoff, clip, shift64, next_delay, delays, Round, failed, published, max_backoff,
}

product_pos : (a b : ℕ) → 0 < a → 0 < b → 0 < a * b
product_pos a b h k = grind arith

le-product : (a b : ℕ) → 0 < b → a ≤ a * b
le-product a b h = grind arith

clip-min : (q cap : ℕ) → 0 < q → q < 2 ^ 63 → clip cap (q % 2 ^ 64) ≡ min q cap
unfolding clip
clip-min q cap pos h = ground arith

-- While the shift does not overflow 63 bits, the pause after attempt `n + 1` is the base doubled
-- `n` times, and the cap where that is more, for every positive base.
backoff-min :
    (base cap n : ℕ)
    → 0 < base
    → base * 2 ^ n < 2 ^ 63
    → backoff base cap (suc n) ≡ min (base * 2 ^ n) cap
unfolding backoff shift64
backoff-min base cap n pos h =
    let back : suc n - 1 ≡ n = omega arith in
    rw back (clip-min (base * 2 ^ n) cap (product_pos base (2 ^ n) pos (pow_pos n)) h)

-- Whatever the shift overflows to, at every attempt the pause is at most the cap, and it is not 0
-- unless the cap is.
pub backoff_bounds :
    (base cap attempts : ℕ)
    → 0 < cap
    → (0 < backoff base cap attempts) × (backoff base cap attempts ≤ cap)
unfolding backoff
backoff_bounds base cap attempts h = ground arith

delays_bounded :
    (interval : ℕ) (rs : List Round) (delay : ℕ)
    → interval ≤ max_backoff
    → delay ≤ max_backoff
    → delays interval delay rs ≤ max_backoff
unfolding delays next_delay
delays_bounded interval [] delay i d = d
delays_bounded interval (failed ∷ rs) delay i d = delays_bounded interval rs _ i (ground arith)
delays_bounded interval (published n ∷ rs) delay i d = delays_bounded interval rs _ i (ground arith)

abbrev pub fails : ℕ → List Round
fails zero = []
fails (suc n) = failed ∷ fails n

next_over :
    (interval delay : ℕ)
    → interval ≤ delay
    → ltb max_backoff (delay * 2) ≡ true
    → next_backoff delay interval max_backoff ≡ max_backoff
unfolding next_backoff
next_over interval delay i h = ground arith

next_under :
    (interval delay : ℕ)
    → interval ≤ delay
    → ltb max_backoff (delay * 2) ≡ false
    → next_backoff delay interval max_backoff ≡ delay * 2
unfolding next_backoff
next_under interval delay i h = ground arith

delays-fails :
    (interval n delay : ℕ)
    → interval ≤ delay
    → delay ≤ max_backoff
    → delays interval delay (fails n) ≡ min (delay * 2 ^ n) max_backoff
unfolding delays next_delay
delays-fails interval zero delay i d = omega arith
delays-fails interval (suc n) delay i d =
    let more = le-product delay (2 ^ n) (pow_pos n) in
    let most = le-product max_backoff (2 ^ n) (pow_pos n) in
    elim (Bool-cases (ltb max_backoff (delay * 2))) [
      | inl over ↦
          rw (next_over interval delay i over, delays)
            (rw (delays-fails interval n max_backoff (omega arith) (omega arith), pow-suc)
              (ground (arith, more, most)))
      | inr under ↦
          rw (next_under interval delay i under, delays)
            (rw (delays-fails interval n (delay * 2) (omega arith) (ground arith), pow-suc)
              (omega arith))
    ]

-- The first failure goes from any pause to its double, and to the interval where that is more.
next_first :
    (interval delay : ℕ)
    → next_backoff delay interval max_backoff ≡ min (max interval (delay * 2)) max_backoff
unfolding next_backoff
next_first interval delay = ground arith

min_twice : (a n : ℕ) → min (min a max_backoff * 2 ^ n) max_backoff ≡ min (a * 2 ^ n) max_backoff
min_twice a n = elim (Bool-cases (ltb max_backoff a)) [
  | inl over ↦
      let cut : min a max_backoff ≡ max_backoff = ground arith in
      rw cut (
        ground
          (arith, le-product a (2 ^ n) (pow_pos n), le-product max_backoff (2 ^ n) (pow_pos n)))
  | inr under ↦ let same : min a max_backoff ≡ a = ground arith in rw same
]

-- The pause of the outbox relay, which begins with the interval, is never above 30 seconds, whatever
-- the rounds end with. In a row of failures, behind any rounds whatever, the first one sets it to
-- twice the pause before or to the interval, whichever is more (so it is the interval behind a full
-- batch, which had no pause, and twice the interval behind any other success); each further failure
-- doubles it; and it stays at 30 seconds where that would be more.
pub relay_delays :
    (interval n : ℕ) (rs : List Round)
    → interval ≤ max_backoff
    → let before = delays interval interval rs in
      (before ≤ max_backoff)
      × (delays interval before (fails (suc n))
          ≡ min (max interval (before * 2) * 2 ^ n) max_backoff)
unfolding delays next_delay
relay_delays interval n rs h =
    let before = delays interval interval rs in
    let most = delays_bounded interval rs interval h h in
    let first = next_first interval before in
    (
      most,
      delays-fails interval n (next_backoff before interval max_backoff) (rw first (omega arith))
            (rw first (omega arith))
          ∙ ap (λ d. min (d * 2 ^ n) max_backoff) first
          ∙ min_twice (max interval (before * 2)) n,
    )
