-- ===== src/Tests/Services.antt =====
-- The services' interfaces at concrete inputs.
use microservice_architectur.Base.{
  ◌⊎◌, ◌↔◌, ◌<◌, ℕ, ◌+◌, ◌≡◌, refl, Bool, true, false, Option, none, some, List, [], ◌∷◌, ◌==◌,
  if◌then◌else◌, map, length, Error, ok, err, healthy, arith, Io, ==_refl,
}
use microservice_architectur.Domain.Order.{OrderStatus}
use microservice_architectur.Store.{Db}
use microservice_architectur.Orders.Read.{listed_order}
use microservice_architectur.Service.Place.{negsuc}
use microservice_architectur.Http.Response.{order_to_response}
use microservice_architectur.Http.Requests.{absent}
use microservice_architectur.Http.Pages.{follow_pages, follow_pages-listed_order}
use microservice_architectur.ProductService.Inbox.{position, Consumer, Delivery, consume_all}
use microservice_architectur.ProductService.Inbox.Once.{all_lost}
use microservice_architectur.ProductService.Inbox.Accounted.{IsDone}
use microservice_architectur.ProductService.Inbox.Passed.{FailedIn, all_reached}
use microservice_architectur.ProductService.Inbox.Sound.{IsSound, consume_all-IsSound}
use microservice_architectur.UserService.{
  User, Bcrypt, register, login, same_text, registered, token, unauthorized,
}
use microservice_architectur.UserService.Login.{Registration, registers, login-register}
use microservice_architectur.Tests.Stores.{no_payments}

-- Two orders.
abbrev two_orders : Db
two_orders = record no_payments {
  orders =
      record { id = 4; status = OrderStatus.paid; created_at = 6 }
      ∷ record { id = 1; status = OrderStatus.pending; created_at = 3 }
      ∷ [];
}

follow_pages-listed_order_example :
    follow_pages 3 (negsuc 6) absent two_orders
    ≡ map order_to_response (map (listed_order two_orders) two_orders.orders)
follow_pages-listed_order_example =
    follow_pages-listed_order (negsuc 6) 3 5 two_orders (omega arith, (omega arith, tt))
      (omega arith, (omega arith, tt)) (omega arith)

-- A topic with an order event, a message that cannot be read, and no more.
abbrev a_topic : ℕ → Option ℕ
a_topic o = if o == 0 then some 7 else none

-- The event is lost at the commit, comes again, and comes a third time; then the other message.
abbrev loses_commit : Io
loses_commit i = if i == 2 then some Error.canceled else none

abbrev some_deliveries : List Delivery
some_deliveries =
    record {
      fetched = ok (record { offset = 0; event = some 7 });
      tx = loses_commit;
      commit = none;
    }
    ∷ record {
      fetched = ok (record { offset = 0; event = some 7 });
      tx = healthy;
      commit = some Error.canceled;
    }
    ∷ record { fetched = err Error.deadline_exceeded; tx = healthy; commit = none }
    ∷ record { fetched = ok (record { offset = 0; event = some 7 }); tx = healthy; commit = none }
    ∷ record { fetched = ok (record { offset = 1; event = none }); tx = healthy; commit = none }
    ∷ []

abbrev idle : Consumer
idle = record { inbox = []; handled = []; commits = [] }

idle-IsSound : IsSound a_topic 0 0 (λ o. ⊥) idle
idle-IsSound = record {
  once = λ id. (omega arith, omega arith, omega arith);
  accounted = tt;
  in_order = omega arith;
  passed = λ o below. absurd (omega arith);
}

consume_all-IsSound_example :
    IsSound a_topic
      (all_lost some_deliveries + 0)
      (all_reached some_deliveries 0)
      (λ o. ⊥ ⊎ FailedIn o some_deliveries)
      (consume_all some_deliveries idle)
    × ((o : ℕ)
        → o < position (consume_all some_deliveries idle).commits
        → IsDone a_topic (consume_all some_deliveries idle).inbox o
          ⊎ (⊥ ⊎ FailedIn o some_deliveries))
consume_all-IsSound_example =
    consume_all-IsSound a_topic some_deliveries 0 0 (λ o. ⊥) idle
      (
        (λ m e. ground arith),
        (
          (λ m e. ground arith),
          ((λ m e. absurd (ground arith)), ((λ m e. ground arith), ((λ m e. ground arith), tt))),
        ),
      )
      (
        (λ m e. ground arith),
        (
          (λ m e. ground arith),
          ((λ m e. absurd (ground arith)), ((λ m e. ground arith), ((λ m e. ground arith), tt))),
        ),
      )
      idle-IsSound

same_text_itself : (xs : List ℕ) → same_text xs xs ≡ true
same_text_itself [] = refl
same_text_itself (x ∷ xs) = rw (==_refl x) (same_text_itself xs)

-- A hash that is the password behind its salt.
abbrev matches_hash : List ℕ → List ℕ → Bool
matches_hash [] password = false
matches_hash (salt ∷ hash) password = same_text hash password

a_hash-matches :
    (salt : ℕ) (password hash : List ℕ)
    → ◌≡◌ {A = Option (List ℕ)} (some (salt ∷ password)) (some hash)
    → matches_hash hash password ≡ true
a_hash-matches salt password [] e = absurd (ground arith)
a_hash-matches salt password (s ∷ hash) e =
    let same : hash ≡ password = ground arith in rw same (same_text_itself password)

abbrev salted : Bcrypt
salted = record {
  generate_from_password = λ salt password. some (salt ∷ password);
  compare_hash_and_password = matches_hash;
  matches = a_hash-matches;
}

-- Someone is there already; the name is tried again later.
abbrev one_user : List User
one_user = record { id = 1; user_name = 5 ∷ []; password = 3 ∷ 8 ∷ [] } ∷ []

abbrev same_name : List Registration
same_name = record { salt = 4; name = 6 ∷ []; password = 9 ∷ [] } ∷ []

login-register_example :
    let (answer, users') = register salted 2 (6 ∷ []) (8 ∷ []) one_user in
    let later = registers salted same_name users' in
    (answer ≡ registered)
    × (login salted true (6 ∷ []) (8 ∷ []) later ≡ token (length one_user + 1) (6 ∷ []))
    × ((login salted true (6 ∷ []) (9 ∷ []) later ≡ token (length one_user + 1) (6 ∷ []))
        ↔ (matches_hash (2 ∷ 8 ∷ []) (9 ∷ []) ≡ true))
    × ((login salted true (6 ∷ []) (9 ∷ []) later ≡ unauthorized)
        ↔ (matches_hash (2 ∷ 8 ∷ []) (9 ∷ []) ≡ false))
login-register_example =
    login-register salted 2 (6 ∷ []) (8 ∷ []) (2 ∷ 8 ∷ []) (9 ∷ []) one_user same_name refl refl
