-- ===== src/Payments/Operations.antt =====
-- The two methods of order-service/internal/repository/payment_repo.go and the invariant of their store.
use microservice_architectur.Base.{
  ℕ, ◌≡◌, refl, Bool, Option, none, some, Error, Result, ok, err, Io, inl, inr, ◌⊎◌,
}
use microservice_architectur.Domain.Payment.{PaymentStatus}
use microservice_architectur.Store.{Db}
use microservice_architectur.Payments.{start, start_or_resume, by_key}
use microservice_architectur.Payments.Transition.{transition}
use microservice_architectur.Payments.Steps.{transition-cases, start-cases}
use microservice_architectur.Payments.Change.{Changes, here, next, begin, move}
use microservice_architectur.Payments.Invariant.{IsValid}
use microservice_architectur.Payments.Kept.{Changes-IsValid}

pub look-cases {ℓ} :
    {A : Type ℓ} (r : Result (Option A))
    → ((e : Error) × (r ≡ err e)) ⊎ ((r ≡ ok none) ⊎ ((a : A) × (r ≡ ok (some a))))
look-cases (err e) = inl (e, refl)
look-cases (ok none) = inr (inl refl)
look-cases (ok (some a)) = inr (inr (a, refl))

-- Behind the changes from `db0` to `db`, what the methods do are further changes.
module _ (db0 db : Db) (v : Changes db0 db) where
  pub start-Changes :
      (io : Io) (key_first : Bool) (order_id : ℕ) (key : Option ℕ) (now : ℕ)
      → Changes db0 (start io key_first order_id key now db).1
  start-Changes io key_first order_id key now =
      elim (start-cases io key_first order_id key now db) [
        | inl (e, failed) ↦ rw failed v
        | inr (o, done, found, pending, free, fresh) ↦
            rw done (next v (begin order_id key now o found pending free fresh refl))
      ]

  pub start_or_resume-Changes :
      (first : Option Error) (io : Io) (last : Option Error) (key_first : Bool) (order_id : ℕ)
      (key : Option ℕ) (now : ℕ)
      → Changes db0 (start_or_resume first io last key_first order_id key now db).1
  unfolding start_or_resume
  start_or_resume-Changes first io last key_first order_id none now =
      start-Changes io key_first order_id none now
  start_or_resume-Changes first io last key_first order_id (some key) now =
      elim (look-cases (by_key first key db)) [
        | inl (e, failed) ↦ rw (failed, start_or_resume) v
        | inr (inl missing) ↦
            rw (missing, start_or_resume) (start-Changes io key_first order_id (some key) now)
        | inr (inr (p, found)) ↦ rw (found, start_or_resume) v
      ]

  pub transition-Changes :
      (io : Io) (id : ℕ) (to : PaymentStatus) (charge : Option ℕ)
      → Changes db0 (transition io id to charge db).1
  transition-Changes io id to charge = elim (transition-cases io id to charge db) [
    | inl (e, failed) ↦ rw failed v
    | inr (p, done, found, can) ↦ rw done (next v (move id p to charge found can refl))
  ]

module _ (db : Db) (v : IsValid db) where
  -- `StartOrResume` keeps the payments' invariant on every path, whatever statements fail: no order
  -- has two payments that are pending or succeeded, each payment's history ends in its status, the
  -- order of a succeeded payment is not pending, and the ids are distinct.
  pub start_or_resume-IsValid :
      (first : Option Error) (io : Io) (last : Option Error) (key_first : Bool) (order_id : ℕ)
      (key : Option ℕ) (now : ℕ)
      → IsValid (start_or_resume first io last key_first order_id key now db).1
  start_or_resume-IsValid first io last key_first order_id key now =
      Changes-IsValid (start_or_resume-Changes db db here first io last key_first order_id key now)
        v

  -- `Transition` keeps the same invariant on every path, for every target status and whatever
  -- statements fail; so a success of the payment and the move of its order are never apart.
  pub transition-IsValid :
      (io : Io) (id : ℕ) (to : PaymentStatus) (charge : Option ℕ)
      → IsValid (transition io id to charge db).1
  transition-IsValid io id to charge =
      Changes-IsValid (transition-Changes db db here io id to charge) v
