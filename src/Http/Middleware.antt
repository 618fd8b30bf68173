-- ===== src/Http/Middleware.antt =====
-- order-service/internal/handler/middleware.go, around the router as setupRoutes of
-- order-service/internal/app/app.go puts it.
--
-- Times are in nanoseconds. The texts of the log are left out: what is modelled of it is one entry for
-- each request that LoggerMiddleware or Recover writes about. What gorilla/mux finds for a request is
-- an argument.
use microservice_architectur.Base.{ℕ, ◌+◌, ◌*◌, Option, none, some, List, ◌∷◌, ltb, if◌then◌else◌}

-- The context of a request: its id and its deadline.
pub record Context : Type 0 where
  pub request_id : Option ℕ
  pub deadline : Option ℕ

-- A handler answers with a status, or panics; before the panic it may have written a status.
pub data Outcome : Type 0 where
  answered : ℕ → Outcome
  panicked : Option ℕ → Outcome

-- `request` is the entry of the logger with the status, `panic_recovered` that of Recover.
pub data Entry : Type 0 where
  request : Option ℕ → ℕ → Entry
  panic_recovered : Option ℕ → Entry

-- The status that the client sees, its X-Request-Id, and the log, newest first.
pub record World : Type 0 where
  pub header : Option ℕ
  pub log : List Entry

abbrev pub Handler : Type 0
Handler = Context → World → Outcome × World

-- LoggerMiddleware; the lines behind a handler that panics are not reached.
unfoldable pub logger_middleware : Handler → Handler
logger_middleware next ctx w =
    let (outcome, w') = next ctx w in
    elim outcome [
      | panicked sent ↦ (panicked sent, w')
      | answered code ↦ (answered code, record w' { log = request ctx.request_id code ∷ w'.log })
    ]

-- http.Error: a status that was written before stands.
abbrev pub http_error : ℕ → Option ℕ → ℕ
http_error code none = code
http_error code (some sent) = sent

-- Recover
unfoldable pub recover : Handler → Handler
recover next ctx w =
    let (outcome, w') = next ctx w in
    elim outcome [
      | answered code ↦ (answered code, w')
      | panicked sent ↦ (
        answered (http_error 500 sent),
        record w' { log = panic_recovered ctx.request_id ∷ w'.log },
      )
    ]

-- context.WithTimeout: the earlier of two deadlines.
abbrev pub with_timeout : ℕ → Context → Context
with_timeout at ctx = record ctx {
  deadline = elim ctx.deadline [ none ↦ some at | some d ↦ some (if ltb d at then d else at) ];
}

-- Timeout
unfoldable pub timeout : ℕ → ℕ → Handler → Handler
timeout d now next ctx w = next (with_timeout (now + d) ctx) w

-- RequestID; `id` is the new UUID.
unfoldable pub set_request_id : ℕ → Handler → Handler
set_request_id id next ctx w =
    next (record ctx { request_id = some id }) (record w { header = some id })

-- What the router finds: a route's handler, or none, and then the status that it answers itself.
pub data Found : Type 0 where
  route : Handler → Found
  no_route : ℕ → Found

-- The router, with LoggerMiddleware by `r.Use`: it stands around the handler of a route only.
unfoldable pub router : Found → Handler
unfolding logger_middleware
router (route h) ctx w = logger_middleware h ctx w
router (no_route code) ctx w = (answered code, w)

-- The chain of setupRoutes around the router.
unfoldable pub chain : ℕ → ℕ → Found → Handler
unfolding router recover timeout set_request_id
chain id now found = set_request_id id (recover (timeout (10 * 1000000000) now (router found)))
