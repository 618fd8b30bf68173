-- ===== src/Lib.antt =====
-- The order service: its core in a model, and the theorems about it.
--
-- The repository is a small shop. order-service takes orders and payments over HTTP; PostgreSQL holds
-- its state, Redis caches products, Kafka gets an event for each order, and a payment provider, which
-- the repository plays itself, charges and refunds. product-service reads the events, user-service
-- registers users. The model covers, of order-service/internal:
--
-- - Domain: domain/order.go and domain/payment.go, the two state machines (CanTransition,
--   CanTransitionPayment, IsTerminal).
-- - Store: the tables that the code reads and writes, from order-service/migrations/goose.
-- - Payments: repository/payment_repo.go. `start_or_resume` is StartOrResume, `start` is start, and
--   `transition` in Payments/Transition is Transition.
-- - Provider: payment/fake_provider.go (Charge, Refund, ChargeStatus, ListCharges).
-- - Service: Service/Pay is Pay of service/payment_service.go, which calls Payments and Provider;
--   Service/Place is createOrder of service/order_service.go, which runs CreateOrder and the Insert of
--   repository/outbox.go in a transaction of txm/txm.go, inside the retries of Retry; Service/Orders is
--   GetOrders and CancelOrder of service/order_service.go.
-- - Orders: repository/order.go. Orders/Create is CreateOrder, Orders/Cancel is CancelOrder, Orders/Read
--   is GetOrderByID and GetOrders.
-- - Products: the table (repository/product.go) behind Redis (Products/Cached is
--   repository/cached_product_repo.go) behind the process's own cache (Products/Local is
--   repository/l1_product_repo.go). Products/Race takes the two halves of a leader in any order with
--   invalidations and commits.
-- - Idempotency: repository/idempotency_repo.go (Claim, Complete, Release); Idempotency/Exec is
--   execIdempotent of handler/idempotency.go on top of it.
-- - Worker: Worker/Outbox is the relay of worker/outbox_relay.go (processBatch, moveToDLQ, cleanup;
--   Worker/Outbox/Loop is the loop of Run),
--   Worker/Backoff holds the pauses of all workers, Worker/Reconcile is worker/reconcile_worker.go and
--   Worker/Refund is worker/refund_worker.go.
-- - Reconciliation: reconciliation/classify.go (Classify) and reconciliation/job.go, whose Run reads the
--   two ledgers (Ledgers), compares and repairs key by key (Job, Fix) and reports (Run); Lease is
--   repository/job_lease.go under the ticks of RunScheduledOnce.
-- - Breaker: breaker/breaker.go, and Cache: cache/redis.go, its guard around the breaker and, in
--   Cache/Client, its Get, Set and Delete.
-- - Retry: retry/retry.go (Do).
-- - Http: Http/Response is handler/errors.go and handler/dto.go, Http/Requests the handlers of
--   handler/handler.go and handler/payment.go; Http/Pages joins GetOrders with the service and the store;
--   Http/Guarded is Idempotent of handler/idempotency.go, Http/Middleware is handler/middleware.go
--   around the router of app/app.go,
--   Http/Health is Readiness of handler/health.go and repository/schema.go.
-- - Wiring: Wiring/Config is config/config.go (Load), Wiring/Startup is New of app/app.go.
-- - System: all of it on one store. A step is one transaction or statement of a request, a worker or the
--   reconciliation, or a whole request or round; Reach is any sequence of steps. System/Effect says what
--   committed transactions do: the changes of Payments/Change, and making and cancelling orders.
--
-- and besides it
--
-- - ProductService: product-service/consumer.go with its inbox, and the products of
--   product-service/main.go (Catalogue).
-- - UserService: user-service/main.go.
-- - Base: results and errors, SQL statements as list operations, Boolean tests. Tests: concrete inputs.
--
-- An operation is a function from the state before to its result and the state after. A table is the
-- list of its rows, the newest first. What the outside world does is an argument: `Io` says of each
-- statement of an operation whether it fails and with what error, so a theorem that holds for every
-- `Io` holds whatever statement, commit or connection fails. A transaction that fails before or at its
-- commit leaves the store as it was. Locked rows make each transaction one step. The answers of Kafka,
-- clocks, random numbers and decoded requests are arguments too. The Redis client, the LRU, the JSON
-- encoding and bcrypt are records of functions with what their documentation says of them.
--
-- Numbers: ids, amounts (in kopecks) and times are natural numbers. Times of the breaker, the workers
-- and the stores they share are in nanoseconds, those of the idempotency keys in seconds, those of the
-- retries in milliseconds. The workers' shift wraps at 64 bits. The loops that run on fuel are those
-- that the code itself bounds, the retries (5 attempts and a last call) and the relay's cleanup (20
-- rounds), and a client that pages through the orders, who needs one page more than there are orders.
--
-- Not modelled: the decoding and encoding of HTTP messages, the texts of logs and the metrics, the
-- connection pool, the order of the shutdown, the tickers of the workers, and the merging of equal
-- requests inside one process (singleflight). A commit whose answer is lost counts as failed. The
-- theorems about System take the transactions of all requests and workers in any order, and
-- Products/Race the halves of a leader; the other theorems about sequences take requests one after
-- the other, each with any failures.
pub mod Base
pub mod Domain
pub mod Store
pub mod Payments
pub mod Provider
pub mod Service
pub mod Orders
pub mod Products
pub mod Idempotency
pub mod Worker
pub mod Reconciliation
pub mod Breaker
pub mod Cache
pub mod Retry
pub mod Http
pub mod ProductService
pub mod UserService
pub mod Wiring
pub mod System
pub mod Tests
