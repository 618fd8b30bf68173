-- ===== src/Worker/Backoff.antt =====
-- The pauses of the workers: `nextBackoff` of order-service/internal/worker/outbox_relay.go, and the
-- doubling pause of reconcile_worker.go and refund_worker.go.
pub mod Bounds
use microservice_architectur.Base.{
  ℕ, ◌+◌, ◌*◌, ◌-◌, ◌^◌, Bool, true, false, ◌||◌, List, [], ◌∷◌, ltb, leb, ◌==◌, if◌then◌else◌,
}
use Prim.Native.Nat.{◌%◌}

-- nextBackoff, on durations that do not overflow.
unfoldable pub next_backoff : ℕ → ℕ → ℕ → ℕ
next_backoff cur base max =
    let next = if ltb (cur * 2) base then base else cur * 2 in if ltb max next then max else next

-- A left shift of an int64, as a bit pattern: `d <= 0` says that it is 0 or that its top bit is set.
unfoldable pub shift64 : ℕ → ℕ → ℕ
shift64 d k = (d * 2 ^ k) % 2 ^ 64

-- `if d <= 0 || d > cap { return cap }`
clip : ℕ → ℕ → ℕ
clip cap d = if (d == 0) || leb (2 ^ 63) d || ltb cap d then cap else d

-- `backoff` of the reconcile worker, and the same lines in markFailed of the refund worker, for
-- attempts from 1 on (a shift by -1 panics).
unfoldable pub backoff : ℕ → ℕ → ℕ → ℕ
unfolding clip
backoff base cap attempts = clip cap (shift64 base (attempts - 1))

abbrev pub batch_size : ℕ
batch_size = 100

abbrev pub max_backoff : ℕ
max_backoff = 30000000000

-- What a round of `Run` of the outbox relay ends with: an error, or the number of rows published.
pub data Round : Type 0 where
  failed : Round
  published : ℕ → Round

-- The `switch` of `Run` that sets the next delay.
unfoldable pub next_delay : ℕ → ℕ → Round → ℕ
unfolding next_backoff
next_delay interval delay failed = next_backoff delay interval max_backoff
next_delay interval delay (published n) = if n == batch_size then 0 else interval

-- The delays over the rounds of `Run`, which starts with `interval`.
unfoldable pub delays : ℕ → ℕ → List Round → ℕ
delays interval delay [] = delay
delays interval delay (r ∷ rs) = delays interval (next_delay interval delay r) rs
