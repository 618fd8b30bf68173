-- ===== src/Payments/Resume.antt =====
-- Payments by idempotency key in order-service/internal/repository/payment_repo.go.
use microservice_architectur.Base.{
  ℕ, ◌≡◌, ap, ◌∙◌, Bool, Option, none, some, Error, ok, err, Io, inl, inr, arith, subst, ==_refl,
}
use microservice_architectur.Store.{Db}
use microservice_architectur.Payments.{
  start_or_resume, by_key, start_new, PaymentInfo, present, add_payment_event, order_total,
}
use microservice_architectur.Payments.Steps.{start-cases, started}
use microservice_architectur.Payments.Operations.{look-cases}

-- A look-up that succeeds in one way succeeds in the same way without a fault.
by_key-fault :
    (fault : Option Error) (key : ℕ) (db : Db) (r : Option PaymentInfo)
    → by_key fault key db ≡ ok r
    → by_key none key db ≡ ok r
unfolding by_key
by_key-fault fault key db r e = ground arith

present-ok-after_error :
    (last : Option Error) (key : ℕ) (e : Error) (db : Db) (q : PaymentInfo)
    → present last (some key) (err e) db ≡ ok q
    → by_key none key db ≡ ok (some q)
unfolding present by_key
present-ok-after_error last key e db q h = ground arith

present-ok_started :
    (last : Option Error) (order_id key now : ℕ) (db : Db) (q : PaymentInfo)
    → let db' = started order_id (some key) now db in
      present last (some key) (ok (db.next_id, order_total order_id db)) db' ≡ ok q
      → by_key none key db' ≡ ok (some q)
unfolding present by_key add_payment_event
present-ok_started last order_id key now db q h = ground (arith, ==_refl key)

start_new-found :
    (io : Io) (last : Option Error) (key_first : Bool) (order_id key now : ℕ) (db db' : Db)
    (q : PaymentInfo)
    → start_new io last key_first order_id (some key) now db ≡ (ok q, db')
    → by_key none key db' ≡ ok (some q)
unfolding start_new
start_new-found io last key_first order_id key now db db' q h =
    elim (start-cases io key_first order_id (some key) now db) [
      | inl (e, failed) ↦
          let h' = rw (failed, start_new) at h in
          subst (λ d. by_key none key d ≡ ok (some q)) (ap (λ r. r.1) h')
            (present-ok-after_error last key e db q (ap (λ r. r.0) h'))
      | inr (o, done, _, _, _, _) ↦
          let h' = rw (done, start_new) at h in
          subst (λ d. by_key none key d ≡ ok (some q)) (ap (λ r. r.1) h')
            (present-ok_started last order_id key now db q (ap (λ r. r.0) h'))
    ]

pub start_or_resume-found :
    (first : Option Error) (io : Io) (last : Option Error) (key_first : Bool) (order_id key now : ℕ)
    (db db' : Db) (q : PaymentInfo)
    → start_or_resume first io last key_first order_id (some key) now db ≡ (ok q, db')
    → by_key none key db' ≡ ok (some q)
unfolding start_or_resume
start_or_resume-found first io last key_first order_id key now db db' q h =
    elim (look-cases (by_key first key db)) [
      | inl (e, failed) ↦ let h' = rw (failed, start_or_resume) at h in absurd (cc)
      | inr (inl missing) ↦
          let h' = rw (missing, start_or_resume) at h in
          start_new-found io last key_first order_id key now db db' q h'
      | inr (inr (p, found)) ↦
          let h' = rw (found, start_or_resume) at h in
          subst (λ d. by_key none key d ≡ ok (some q)) (ap (λ r. r.1) h')
            (by_key-fault first key db (some q)
              (found ∙ ap (λ r. elim r [ ok x ↦ ok (some x) | err e ↦ err e ]) (ap (λ r. r.0) h')))
    ]
