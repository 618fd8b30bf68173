-- ===== src/Idempotency/Replay.antt =====
-- `execIdempotent` of order-service/internal/handler/idempotency.go on a repeated request.
use microservice_architectur.Base.{
  ℕ, ◌≤◌, ◌≡◌, refl, true, false, none, some, List, find, ok, arith, ◌<◌, subst, ◌==◌, ap, sym, ◌∙◌,
}
use microservice_architectur.Domain.Payment.{IdempotencyClaim}
use microservice_architectur.Store.Rows.{find-update_elsewhere, find-holds}
use microservice_architectur.Idempotency.{RequestRow, has_key, claim, complete}
use microservice_architectur.Idempotency.Lease.{claim-Leased, claim-owner}
use microservice_architectur.Idempotency.Exec.{
  Weather, StoredResponse, exec_idempotent, after_claim, json_response,
}

-- What the key's row says once the request is done.
abbrev pub Completed : ℕ → ℕ → ℕ → List ℕ → ℕ → List RequestRow → Type 0
Completed key hash code body end rows =
    (r : RequestRow) × (find (has_key key) rows ≡ some r)
    × (r.completed ≡ true)
    × (r.request_hash ≡ hash)
    × (r.response_code ≡ some code)
    × (r.response_body ≡ body)
    × (r.expires_at ≡ end)

complete-Completed :
    (key code : ℕ) (body : List ℕ) (rows : List RequestRow) (r : RequestRow)
    → find (has_key key) rows ≡ some r
    → Completed key r.request_hash code body r.expires_at (complete none key code body rows).1
unfolding complete
complete-Completed key code body rows r found =
    let same = find-holds (has_key key) rows r found in
    let done =
      find-update_elsewhere (has_key key) (has_key key)
        (λ (x : RequestRow). record x {
          completed = true;
          response_code = some code;
          response_body = body;
        })
        rows r (λ x. refl) found in
    (
      record r { completed = true; response_code = some code; response_body = body },
      ground arith,
      refl,
      refl,
      refl,
      refl,
      refl,
    )

module _ {ℓ} {W : Type ℓ} (text : ℕ → List ℕ) (next : W → (ℕ × List ℕ) × W) where
  replayed :
      (f : Weather) (key hash code end : ℕ) (body : List ℕ) (rows : List RequestRow) (w : W)
      → f.io 0 ≡ none
      → f.io 1 ≡ none
      → f.io 3 ≡ none
      → f.vanished ≡ false
      → Completed key hash code body end rows
      → f.now ≤ end
      → exec_idempotent text next f key hash rows w
        ≡ (record { code = code; body = body; retry_after = false }, rows, w)
  unfolding exec_idempotent claim
  replayed f key hash code end body rows w a b c v (r, found, done, same, code_, body_, end_) h =
      ground arith

  mismatched_later :
      (f : Weather) (key hash other code end : ℕ) (body : List ℕ) (rows : List RequestRow) (w : W)
      → f.io 0 ≡ none
      → f.io 1 ≡ none
      → f.io 3 ≡ none
      → f.vanished ≡ false
      → Completed key hash code body end rows
      → f.now ≤ end
      → (hash == other) ≡ false
      → exec_idempotent text next f key other rows w ≡ (json_response 422 text false, rows, w)
  unfolding exec_idempotent claim
  mismatched_later f key hash other code end body rows w a b c v
        (r, found, done, same, code_, body_, end_) h ne =
      ground arith

  behind_claim :
      (f : Weather) (key code : ℕ) (body : List ℕ) (rows : List RequestRow) (w : W)
      (c : IdempotencyClaim)
      → c.mismatch ≡ false
      → c.busy ≡ false
      → c.owner ≡ true
      → (next w).0 ≡ (code, body)
      → code < 500
      → f.finish_fault ≡ none
      → after_claim text next f key (ok c) rows w ≡ (
        record { code = code; body = body; retry_after = false },
        (complete none key code body rows).1,
        (next w).1,
      )
  unfolding after_claim
  behind_claim f key code body rows w c m b own ran small fine = ground arith

  owner_runs :
      (f : Weather) (key hash code : ℕ) (body : List ℕ) (rows rows' : List RequestRow) (w : W)
      (c : IdempotencyClaim)
      → claim f.io f.vanished key hash f.now rows ≡ (ok c, rows')
      → c.owner ≡ true
      → (next w).0 ≡ (code, body)
      → code < 500
      → f.finish_fault ≡ none
      → exec_idempotent text next f key hash rows w ≡ (
        record { code = code; body = body; retry_after = false },
        (complete none key code body rows').1,
        (next w).1,
      )
  owner_runs f key hash code body rows rows' w c e own ran small fine =
      let (m, b) = claim-owner f.io f.vanished key hash f.now rows rows' c e own in
      let step = ap (λ r. after_claim text next f key r.0 r.1 w) e in
      unfold exec_idempotent in step ∙ behind_claim f key code body rows' w c m b own ran small fine

  -- A request runs once. If a claim makes the caller the owner, the handler answers below 500 and the
  -- answer is recorded, then the caller gets that answer. From then on, while the key is kept and the
  -- later claim's statements go through, the same request gets the same answer and another request
  -- under the key gets 422, in both cases without running the handler and without any write.
  pub exec_idempotent-once :
      (f g : Weather) (key hash other code : ℕ) (body : List ℕ) (rows rows' : List RequestRow)
      (w v : W) (c : IdempotencyClaim) (r : RequestRow)
      → claim f.io f.vanished key hash f.now rows ≡ (ok c, rows')
      → c.owner ≡ true
      → find (has_key key) rows' ≡ some r
      → (next w).0 ≡ (code, body)
      → code < 500
      → f.finish_fault ≡ none
      → g.io 0 ≡ none
      → g.io 1 ≡ none
      → g.io 3 ≡ none
      → g.vanished ≡ false
      → g.now ≤ r.expires_at
      → (hash == other) ≡ false
      → let answer : StoredResponse = record { code = code; body = body; retry_after = false } in
        let done = (complete none key code body rows').1 in
        (exec_idempotent text next f key hash rows w ≡ (answer, done, (next w).1))
        × (exec_idempotent text next g key hash done v ≡ (answer, done, v))
        × (exec_idempotent text next g key other done v ≡ (json_response 422 text false, done, v))
  exec_idempotent-once f g key hash other code body rows rows' w v c r e own has ran small fine i0
        i1 i3 d soon ne =
      let (r', found, _, same, _, kept) =
        claim-Leased f.io f.vanished key hash f.now rows rows' c e own in
      let row : r' ≡ r = ground (arith, found, has) in
      let stored = complete-Completed key code body rows' r has in
      let done =
        subst (λ h. Completed key h code body r.expires_at (complete none key code body rows').1)
          (ap (λ (x : RequestRow). x.request_hash) (sym row) ∙ same) stored in
      (
        owner_runs f key hash code body rows rows' w c e own ran small fine,
        replayed g key hash code r.expires_at body _ v i0 i1 i3 d done soon,
        mismatched_later g key hash other code r.expires_at body _ v i0 i1 i3 d done soon ne,
      )
