-- ===== src/Base/Results.antt =====
-- Go's `(value, error)` results, and the errors that the code tells apart.
--
-- An error that is wrapped by `fmt.Errorf("%w: ...")` is written as the error that it wraps: the
-- code reads it by `errors.Is`, and no text of an error is modelled. Errors that the code only
-- hands on are `opaque` with a number that tells them apart.
use Prim.Native.Nat.{ℕ}
use mathlib.Core.Path.{◌≡◌, refl}
use mathlib.Core.Logic.{◌⊎◌, inl, inr}
use mathlib.Core.Bool.{Bool, true, false}
use mathlib.Core.Option.{Option, none, some}

-- The codes of a PostgreSQL error that the code reads: 40001, 40P01, and 23505 with its constraint.
pub data PgCode : Type 0 where
  serialization_failure deadlock_detected : PgCode
  payments_one_active_per_order payments_idempotency_key : PgCode
  other_code : ℕ → PgCode

-- The sentinel errors of internal/domain and internal/payment, `*pgconn.PgError`, the errors of a
-- context, and all others.
pub data Error : Type 0 where
  order_not_found product_not_found insufficient_stock invalid_status_transition : Error
  order_already_cancelled invalid_cursor offset_not_supported payment_declined : Error
  payment_already_active payment_transition payment_not_found payment_in_progress : Error
  provider_declined provider_unavailable : Error
  deadline_exceeded canceled : Error
  pg : PgCode → Error
  opaque : ℕ → Error

pub data Result {ℓ} (A : Type ℓ) : Type ℓ where
  ok : A → Result A
  err : Error → Result A

pub Result-cases {ℓ} :
    {A : Type ℓ} (r : Result A) → ((e : Error) × (r ≡ err e)) ⊎ ((a : A) × (r ≡ ok a))
Result-cases (ok a) = inr (a, refl)
Result-cases (err e) = inl (e, refl)

infixl 5 ◌>>=◌
abbrev pub ◌>>=◌ {ℓ κ} : {A : Type ℓ} {B : Type κ} → Result A → (A → Result B) → Result B
err e >>= next = err e
ok value >>= next = next value

infixl 5 ◌>>◌
abbrev pub ◌>>◌ {ℓ} : {A : Type ℓ} → Result (Unit {0}) → Result A → Result A
first >> then = first >>= λ done. then

-- What the outside world does to the calls of one operation, by the number of the call: `none` lets
-- it through, `some e` makes it fail with `e`. A driver's error, a lost connection and an expired
-- context are all of this kind.
abbrev pub Io : Type 0
Io = ℕ → Option Error

-- The `if err != nil { return err }` behind the call.
abbrev pub attempt : Option Error → Result (Unit {0})
attempt none = ok tt
attempt (some e) = err e

-- `if bad { return err }`
abbrev pub reject_if : Bool → Error → Result (Unit {0})
reject_if true e = err e
reject_if false e = ok tt

abbrev pub or_fail {ℓ} : {A : Type ℓ} → Option A → Error → Result A
or_fail none e = err e
or_fail (some a) e = ok a

-- A transaction on a store: what failed before the commit, or at it, is rolled back.
abbrev pub finish {ℓ κ} : {S : Type ℓ} {A : Type κ} → S → Result (A × S) → Result A × S
finish s (ok (a, s')) = (ok a, s')
finish s (err e) = (err e, s)

-- The same behind its `Begin`, which may fail.
abbrev pub transact {ℓ κ} :
    {S : Type ℓ} {A : Type κ} → Option Error → (S → Result (A × S)) → S → Result A × S
transact none body s = finish s (body s)
transact (some e) body s = (err e, s)

finish-cases {ℓ κ} :
    {S : Type ℓ} {A : Type κ} (s : S) (r : Result (A × S))
    → ((e : Error) × (finish s r ≡ (err e, s)))
      ⊎ ((a : A) × (s' : S) × (r ≡ ok (a, s')) × (finish s r ≡ (ok a, s')))
finish-cases s (ok (a, s')) = inr (a, s', refl, refl)
finish-cases s (err e) = inl (e, refl)

-- A transaction fails and changes nothing, or it is its body.
pub transact-cases {ℓ κ} :
    {S : Type ℓ} {A : Type κ} (begin : Option Error) (body : S → Result (A × S)) (s : S)
    → ((e : Error) × (transact begin body s ≡ (err e, s)))
      ⊎ ((a : A) × (s' : S) × (body s ≡ ok (a, s')) × (transact begin body s ≡ (ok a, s')))
transact-cases none body s = finish-cases s (body s)
transact-cases (some e) body s = inl (e, refl)

-- No call fails.
abbrev pub healthy : Io
healthy _ = none
