-- ===== src/Http/Guarded.antt =====
-- `Idempotent` of order-service/internal/handler/idempotency.go: the middleware around a handler.
--
-- A request's key is a number and its length; `hash` is the fingerprint that crypto/sha256 makes of the
-- method, the path and the body. The caller is alone under its key and fingerprint or leads the others,
-- who get its answer. The texts of the answers are parameters.
use microservice_architectur.Base.{
  ℕ, Bool, false, not, ◌||◌, Option, none, some, List, ◌==◌, ltb, if◌then◌else◌,
}
use microservice_architectur.Idempotency.{RequestRow}
use microservice_architectur.Idempotency.Exec.{StoredResponse, Weather, exec_idempotent}

-- The header Idempotency-Key; an absent one has the length 0.
pub record KeyHeader : Type 0 where
  pub key : ℕ
  pub length : ℕ

-- The rest of a request: whether its body can be read, its fingerprint, and whether its client leaves
-- before the answer is there.
pub record Request : Type 0 where
  pub readable : Bool
  pub hash : ℕ
  pub left : Bool

abbrev pub refused : List ℕ → StoredResponse
refused text = record { code = 400; body = text; retry_after = false }

module _ {ℓ} {W : Type ℓ} (text : ℕ → List ℕ) (no_key no_body : List ℕ)
    (next : W → (ℕ × List ℕ) × W) where
  -- `none` is no answer, to a client that has left.
  unfoldable pub idempotent :
      Weather
      → KeyHeader
      → Request
      → List RequestRow
      → W
      → Option StoredResponse × List RequestRow × W
  unfolding exec_idempotent
  idempotent f header r rows w =
      if header.length == 0 || ltb 255 header.length
      then (some (refused no_key), rows, w)
      else if not r.readable
      then (some (refused no_body), rows, w)
      else let (answer, rows', w') = exec_idempotent text next f header.key r.hash rows w in
        (if r.left then none else some answer, rows', w')
