-- ===== src/Idempotency.antt =====
-- order-service/internal/repository/idempotency_repo.go: the requests to pay by idempotency key.
-- The middleware on top of it, order-service/internal/handler/idempotency.go, is Idempotency/Exec.antt.
--
-- Times are in seconds; `now` is NOW(), which stands still in a transaction. `Io` numbers the
-- statements: 0 is Begin. A key or a fingerprint is a number.
pub mod Exec
pub mod Lease
pub mod Replay
use microservice_architectur.Base.{
  ℕ, ◌+◌, Bool, true, false, not, ◌&&◌, Option, none, some, List, [], ◌∷◌, ◌==◌, ltb, if◌then◌else◌,
  find, update, Error, Result, ok, err, ◌>>=◌, ◌>>◌, Io, attempt, transact,
}
use microservice_architectur.Domain.Payment.{IdempotencyClaim}

abbrev pub idempotency_lease : ℕ
idempotency_lease = 15

abbrev pub idempotency_ttl : ℕ
idempotency_ttl = 86400

-- payment_requests; `completed` is false for the status "in_progress".
pub record RequestRow : Type 0 where
  pub key : ℕ
  pub request_hash : ℕ
  pub completed : Bool
  pub response_code : Option ℕ
  pub response_body : List ℕ
  pub locked_until : ℕ
  pub expires_at : ℕ

abbrev pub has_key : ℕ → RequestRow → Bool
has_key key r = r.key == key

abbrev pub owned : IdempotencyClaim
owned = record { owner = true; mismatch = false; busy = false; code = 0; body = [] }

abbrev pub mismatched : IdempotencyClaim
mismatched = record { owner = false; mismatch = true; busy = false; code = 0; body = [] }

abbrev pub is_busy : IdempotencyClaim
is_busy = record { owner = false; mismatch = false; busy = true; code = 0; body = [] }

abbrev pub stored : Option ℕ → List ℕ → IdempotencyClaim
stored none body = record { owner = false; mismatch = false; busy = false; code = 0; body = body }
stored (some c) body = record {
  owner = false;
  mismatch = false;
  busy = false;
  code = c;
  body = body;
}

-- The row that a claim writes.
abbrev pub fresh_row : ℕ → ℕ → ℕ → RequestRow
fresh_row key hash now = record {
  key = key;
  request_hash = hash;
  completed = false;
  response_code = none;
  response_body = [];
  locked_until = now + idempotency_lease;
  expires_at = now + idempotency_ttl;
}

-- The `switch` of Claim over the row that holds the key, and what is behind it.
unfoldable pub claim_row :
    Io → ℕ → ℕ → ℕ → RequestRow → List RequestRow → Result (IdempotencyClaim × List RequestRow)
claim_row io key hash now r rows =
    let renewed =
      update (has_key key) (λ x. record x { locked_until = now + idempotency_lease }) rows in
    let reused = update (has_key key) (λ _. fresh_row key hash now) rows in
    if ltb r.expires_at now
    then attempt (io 4) >> (attempt (io 5) >> ok (owned, reused))
    else if not (r.request_hash == hash)
    then ok (mismatched, rows)
    else if r.completed
    then ok (stored r.response_code r.response_body, rows)
    else if not (ltb r.locked_until now)
    then ok (is_busy, rows)
    else attempt (io 4) >> (attempt (io 5) >> ok (owned, renewed))

-- The transaction of Claim, its commit included. That the SELECT finds no row behind a conflict means
-- that the row was deleted in between: `vanished`.
unfoldable pub claim_body :
    Io → Bool → ℕ → ℕ → ℕ → List RequestRow → Result (IdempotencyClaim × List RequestRow)
unfolding claim_row
claim_body io vanished key hash now rows = do
  attempt (io 1)
  elim (find (has_key key) rows) [
    | none ↦ attempt (io 2) >> ok (owned, fresh_row key hash now ∷ rows)
    | some r ↦
        if vanished then ok (is_busy, rows) else attempt (io 3) >> claim_row io key hash now r rows
  ]

-- Claim
unfoldable pub claim :
    Io → Bool → ℕ → ℕ → ℕ → List RequestRow → Result IdempotencyClaim × List RequestRow
unfolding claim_body
claim io vanished key hash now rows = transact (io 0) (claim_body io vanished key hash now) rows

-- Complete
unfoldable pub complete :
    Option Error → ℕ → ℕ → List ℕ → List RequestRow → Option Error × List RequestRow
complete (some e) key code body rows = (some e, rows)
complete none key code body rows = (
  none,
  update (has_key key)
      (λ r. record r { completed = true; response_code = some code; response_body = body }) rows,
)

-- Release
unfoldable pub release : Option Error → ℕ → ℕ → List RequestRow → Option Error × List RequestRow
release (some e) key now rows = (some e, rows)
release none key now rows = (
  none,
  update (λ r. has_key key r && not r.completed) (λ r. record r { locked_until = now }) rows,
)
