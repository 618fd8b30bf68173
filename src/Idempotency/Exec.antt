-- ===== src/Idempotency/Exec.antt =====
-- `execIdempotent` of order-service/internal/handler/idempotency.go.
--
-- The handler behind the middleware is an argument: a function from the world to a response and the
-- world after it. Bodies are lists of bytes; the JSON of the three refusals is opaque.
use microservice_architectur.Base.{
  ℕ, Bool, true, false, not, Option, List, ◌==◌, leb, if◌then◌else◌, Error, Result, ok, err, Io,
}
use microservice_architectur.Domain.Payment.{IdempotencyClaim}
use microservice_architectur.Idempotency.{RequestRow, claim, complete, release}

pub record StoredResponse : Type 0 where
  pub code : ℕ
  pub body : List ℕ
  pub retry_after : Bool

-- What surrounds one execution: the claim's failures and time, and those of the record behind it.
pub record Weather : Type 0 where
  pub io : Io
  pub vanished : Bool
  pub now : ℕ
  pub finish_fault : Option Error
  pub finished : ℕ

-- jsonResponse, the text as a parameter of the model.
abbrev pub json_response : ℕ → (ℕ → List ℕ) → Bool → StoredResponse
json_response code text retry = record { code = code; body = text code; retry_after = retry }

module _ {ℓ} {W : Type ℓ} (text : ℕ → List ℕ) (next : W → (ℕ × List ℕ) × W) where
  -- The part behind the claim, for the owner.
  unfoldable pub run_next : Weather → ℕ → List RequestRow → W → StoredResponse × List RequestRow × W
  run_next f key rows w =
      let ((code, body), w') = next w in
      if leb 500 code
      then (
        record { code = code; body = body; retry_after = code == 503 },
        (release f.finish_fault key f.finished rows).1,
        w',
      )
      else (
        record { code = code; body = body; retry_after = false },
        (complete f.finish_fault key code body rows).1,
        w',
      )

  -- The `switch` over the claim.
  unfoldable pub after_claim :
      Weather
      → ℕ
      → Result IdempotencyClaim
      → List RequestRow
      → W
      → StoredResponse × List RequestRow × W
  unfolding run_next
  after_claim f key (err e) rows w = (json_response 503 text true, rows, w)
  after_claim f key (ok c) rows w =
      if c.mismatch
      then (json_response 422 text false, rows, w)
      else if c.busy
      then (json_response 409 text true, rows, w)
      else if not c.owner
      then (record { code = c.code; body = c.body; retry_after = false }, rows, w)
      else run_next f key rows w

  -- execIdempotent
  unfoldable pub exec_idempotent :
      Weather → ℕ → ℕ → List RequestRow → W → StoredResponse × List RequestRow × W
  unfolding after_claim
  exec_idempotent f key hash rows w =
      let (r, rows') = claim f.io f.vanished key hash f.now rows in after_claim f key r rows' w
