-- ===== src/Http/Served.antt =====
-- What a client gets through the chain of order-service/internal/handler/middleware.go.
use microservice_architectur.Base.{
  ℕ, ◌+◌, ◌*◌, ◌≤◌, ◌≡◌, refl, ap, some, arith, ◌⊎◌, inl, inr, Option-cases, Option, ltb, length,
  if◌then◌else◌,
}
use microservice_architectur.Http.Middleware.{
  Context, Outcome, answered, panicked, World, with_timeout, chain, Found, route, no_route, router,
  http_error, logger_middleware, recover, timeout, set_request_id,
}

outcome-cases :
    (o : Outcome) → ((sent : Option ℕ) × (o ≡ panicked sent)) ⊎ ((code : ℕ) × (o ≡ answered code))
outcome-cases (panicked sent) = inl (sent, refl)
outcome-cases (answered code) = inr (code, refl)

with_timeout-deadline :
    (at : ℕ) (ctx : Context) → (d : ℕ) × ((with_timeout at ctx).deadline ≡ some d) × (d ≤ at)
with_timeout-deadline at ctx = elim (Option-cases ctx.deadline) [
  | inl e ↦ (at, rw e refl, omega arith)
  | inr (d, e) ↦ ((if ltb d at then d else at), rw e refl, ground arith)
]

-- The number of entries that a request leaves in the log: none if the router finds no route.
abbrev pub entries : Found → ℕ
entries (route h) = 1
entries (no_route code) = 0

-- A handler that leaves the log alone.
abbrev pub IsQuiet : Found → Type 0
IsQuiet (route h) = (ctx : Context) (w : World) → (h ctx w).1.log ≡ w.log
IsQuiet (no_route code) = Unit

quiet-entries :
    (id now : ℕ) (found : Found) (ctx : Context) (w : World)
    → IsQuiet found
    → length (chain id now found ctx w).1.log ≡ entries found + length w.log
unfolding chain logger_middleware recover timeout set_request_id router
quiet-entries id now (no_route code) ctx w quiet = omega arith
quiet-entries id now (route h) ctx w quiet =
    let ctx' = with_timeout (now + 10 * 1000000000) (record ctx { request_id = some id }) in
    let same = quiet ctx' (record w { header = some id }) in ground (arith, same)

chain-answered :
    (id now : ℕ) (found : Found) (ctx : Context) (w : World)
    → (code : ℕ) × ((chain id now found ctx w).0 ≡ answered code)
unfolding chain logger_middleware recover timeout set_request_id router
chain-answered id now (no_route code) ctx w = (code, refl)
chain-answered id now (route h) ctx w =
    let ctx' = with_timeout (now + 10 * 1000000000) (record ctx { request_id = some id }) in
    elim (outcome-cases (h ctx' (record w { header = some id })).0) [
      | inl (sent, e) ↦ (http_error 500 sent, ground arith)
      | inr (code, e) ↦ (code, ground arith)
    ]

-- Two finds that differ at most in what their handlers do with another context than one with the id
-- and with a deadline of at most 10 seconds from now.
abbrev pub Agree : ℕ → ℕ → Found → Found → Type 0
Agree id now (route h) (route k) =
    (ctx : Context) (w : World)
    → ctx.request_id ≡ some id
    → (d : ℕ) × (ctx.deadline ≡ some d) × (d ≤ now + 10 * 1000000000)
    → h ctx w ≡ k ctx w
Agree id now (no_route a) (no_route b) = a ≡ b
Agree id now (route h) (no_route b) = ⊥
Agree id now (no_route a) (route k) = ⊥

chain-Agree :
    (id now : ℕ) (found other : Found) (ctx : Context) (w : World)
    → Agree id now found other
    → chain id now found ctx w ≡ chain id now other ctx w
unfolding chain logger_middleware recover timeout set_request_id router
chain-Agree id now (no_route a) (no_route b) ctx w same = rw same refl
chain-Agree id now (route h) (route k) ctx w same =
    let ctx' = with_timeout (now + 10 * 1000000000) (record ctx { request_id = some id }) in
    let equal =
      same ctx' (record w { header = some id }) refl
        (with_timeout-deadline (now + 10 * 1000000000) (record ctx { request_id = some id })) in
    ap
      (λ r.
        set_request_id id (recover (timeout (10 * 1000000000) now (logger_middleware (λ c v. r))))
          ctx w)
      equal
chain-Agree id now (route h) (no_route b) ctx w same = absurd same
chain-Agree id now (no_route a) (route k) ctx w same = absurd same

-- Through the whole chain, for a route whose handler leaves the log alone, and where there is no route:
-- the request is answered, so no panic gets out, whether the handler has written something before it
-- or not; the log grows by one entry for a route, by none where there is no route, panic or not; and
-- the answer and the log depend on the handler only through what it does with contexts that carry the
-- new id and a deadline of at most 10 seconds from now.
pub chain-answers :
    (id now : ℕ) (found : Found) (ctx : Context) (w : World)
    → IsQuiet found
    → ((code : ℕ) × ((chain id now found ctx w).0 ≡ answered code))
      × (length (chain id now found ctx w).1.log ≡ entries found + length w.log)
      × ((other : Found)
          → Agree id now found other
          → chain id now found ctx w ≡ chain id now other ctx w)
chain-answers id now found ctx w quiet = (
  chain-answered id now found ctx w,
  quiet-entries id now found ctx w quiet,
  λ other same. chain-Agree id now found other ctx w same,
)
