-- ===== src/Tests/Wiring.antt =====
-- The start of the service and its middleware at concrete inputs.
use microservice_architectur.Base.{ℕ, ◌≡◌, ◌≢◌, refl, Option, none, some, [], ◌∷◌, ok, length}
use microservice_architectur.Service.Place.{ℤ, pos}
use microservice_architectur.Wiring.Config.{Variable, Text, load}
use microservice_architectur.Wiring.Startup.{Answers, App, build, new_app}
use microservice_architectur.Wiring.Config
use microservice_architectur.Wiring.Bounds.{IsReady, new_app-IsReady}
use microservice_architectur.Http.Middleware.{
  Context, answered, panicked, Found, route, World, Handler, chain,
}
use microservice_architectur.Http.Served.{Agree, chain-answers}

-- Only the URL of the database is set.
abbrev one_variable : Variable → Text
one_variable Variable.database_url = 7 ∷ []
one_variable _ = []

abbrev unread : Text → Option ℤ
unread [] = none
unread (c ∷ cs) = some (pos c)

abbrev all_answer : Answers
all_answer = record {
  connect = none;
  postgres_ping = none;
  redis_ping = none;
  fake_provider = none;
  latest = ok 9;
}

abbrev an_app : App
an_app = build (Config.settings one_variable unread unread [] [] (7 ∷ [])) 9

new_app-IsReady_example : (one_variable Variable.database_url ≢ []) × IsReady all_answer an_app
unfolding new_app load
new_app-IsReady_example = new_app-IsReady one_variable unread unread [] [] all_answer an_app refl

abbrev panics : Handler
panics ctx w = (panicked none, w)

abbrev no_context : Context
no_context = record { request_id = none; deadline = none }

abbrev no_log : World
no_log = record { header = none; log = [] }

chain-answers_example :
    ((code : ℕ) × ((chain 3 100 (route panics) no_context no_log).0 ≡ answered code))
    × (length (chain 3 100 (route panics) no_context no_log).1.log ≡ 1)
    × ((other : Found)
        → Agree 3 100 (route panics) other
        → chain 3 100 (route panics) no_context no_log ≡ chain 3 100 other no_context no_log)
chain-answers_example = chain-answers 3 100 (route panics) no_context no_log (λ ctx w. refl)
