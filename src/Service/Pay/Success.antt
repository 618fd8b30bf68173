-- ===== src/Service/Pay/Success.antt =====
-- What a successful answer of Pay says about the store.
use microservice_architectur.Base.{
  ℕ, ◌≡◌, refl, ap, subst, subst₂, Option, none, some, Result, ok, err, arith, find, ◌==◌,
  Option-cases, inl, inr,
}
use microservice_architectur.Domain.Payment.{PaymentStatus}
use microservice_architectur.Store.{Db, PaymentRow}
use microservice_architectur.Store.Rows.{find-update_elsewhere}
use microservice_architectur.Payments.{
  PaymentInfo, start_or_resume, by_key, has_key, info, add_payment_event,
}
use microservice_architectur.Payments.Transition.{set_status, mark_paid, moved_row}
use microservice_architectur.Payments.Steps.{moved, transition-cases}
use microservice_architectur.Payments.Resume.{start_or_resume-found}
use microservice_architectur.Service.Pay.{
  World, Faults, record_charge, charge_pending, settle, after_start, pay,
}

-- The payment under the key has succeeded with this charge.
abbrev pub PaidWith : ℕ → Option ℕ → Db → Type 0
PaidWith key charge_id db =
    (q : PaymentInfo) × (by_key none key db ≡ ok (some q))
    × (q.status ≡ PaymentStatus.succeeded)
    × (q.provider_payment_id ≡ charge_id)

moved-by_key :
    (key id : ℕ) (p : PaymentRow) (charge_id : ℕ) (db : Db) (q : PaymentInfo)
    → by_key none key db ≡ ok (some q)
    → q.id ≡ id
    → PaidWith key (some charge_id) (moved id p PaymentStatus.succeeded (some charge_id) db)
unfolding by_key set_status mark_paid add_payment_event
moved-by_key key id p charge_id db q e same = elim (Option-cases (find (has_key key) db.payments)) [
  | inl missing ↦ absurd (ground arith)
  | inr (r, found) ↦
      let later =
        find-update_elsewhere (has_key key) (λ x. x.id == id)
          (moved_row PaymentStatus.succeeded (some charge_id)) db.payments r (λ x. refl) found in
      (
        info (moved_row PaymentStatus.succeeded (some charge_id) r),
        ground (arith, later),
        refl,
        refl,
      )
]

record_charge-paid :
    (f : Faults) (key id : ℕ) (r : Result ℕ) (w w' : World) (q : PaymentInfo) (c : Option ℕ)
    → by_key none key w.db ≡ ok (some q)
    → q.id ≡ id
    → record_charge f id r w ≡ (some (ok c), w')
    → PaidWith key c w'.db
unfolding record_charge
record_charge-paid f key id (err e) w w' q c found same h = absurd (ground arith)
record_charge-paid f key id (ok charge_id) w w' q c found same h =
    elim (transition-cases f.transition_io id PaymentStatus.succeeded (some charge_id) w.db) [
      | inl (e, failed) ↦ absurd (ground arith)
      | inr (p, done, _, _) ↦
          let store : moved id p PaymentStatus.succeeded (some charge_id) w.db ≡ w'.db =
            ground arith in
          let which : ◌≡◌ {A = Option ℕ} (some charge_id) c = ground arith in
          subst₂ (PaidWith key) which store (moved-by_key key id p charge_id w.db q found same)
    ]

charge_pending-paid :
    (f : Faults) (order_id key now : ℕ) (q : PaymentInfo) (w w' : World) (c : Option ℕ)
    → by_key none key w.db ≡ ok (some q)
    → charge_pending f order_id (some key) now q w ≡ (some (ok c), w')
    → PaidWith key c w'.db
unfolding charge_pending
charge_pending-paid f order_id key now q w w' c found h =
    record_charge-paid f key q.id _ _ w' q c found refl h

settle-paid :
    (f : Faults) (order_id key now : ℕ) (s : PaymentStatus) (q : PaymentInfo) (w w' : World)
    (c : Option ℕ)
    → by_key none key w.db ≡ ok (some q)
    → q.status ≡ s
    → settle f order_id (some key) now s q w ≡ (some (ok c), w')
    → PaidWith key c w'.db
unfolding settle
settle-paid f order_id key now PaymentStatus.succeeded q w w' c found same h =
    let store : w.db ≡ w'.db = ground arith in
    let which : q.provider_payment_id ≡ c = ground arith in
    subst (PaidWith key c) store (q, found, same, which)
settle-paid f order_id key now PaymentStatus.failed q w w' c found same h = absurd (ground arith)
settle-paid f order_id key now PaymentStatus.expired q w w' c found same h = absurd (ground arith)
settle-paid f order_id key now PaymentStatus.refunded q w w' c found same h = absurd (ground arith)
settle-paid f order_id key now PaymentStatus.pending q w w' c found same h =
    charge_pending-paid f order_id key now q w w' c found h
settle-paid f order_id key now (PaymentStatus.other n) q w w' c found same h =
    charge_pending-paid f order_id key now q w w' c found h

after_start-paid :
    (f : Faults) (order_id key now : ℕ) (r : Result PaymentInfo) (w w' : World) (c : Option ℕ)
    → ((q : PaymentInfo) → r ≡ ok q → by_key none key w.db ≡ ok (some q))
    → after_start f order_id (some key) now r w ≡ (some (ok c), w')
    → PaidWith key c w'.db
unfolding after_start
after_start-paid f order_id key now (err e) w w' c found h = absurd (ground arith)
after_start-paid f order_id key now (ok q) w w' c found h =
    settle-paid f order_id key now q.status q w w' c (found q refl) refl h

-- If Pay answers a request with a key by a charge id, whatever failed on the way, then the store
-- afterwards holds, under that key, a payment that has succeeded with that charge.
pub pay-paid :
    (f : Faults) (order_id key now : ℕ) (w w' : World) (c : Option ℕ)
    → pay f order_id (some key) now w ≡ (some (ok c), w')
    → PaidWith key c w'.db
unfolding pay
pay-paid f order_id key now w w' c h =
    let out =
      start_or_resume f.look f.start_io f.look_again f.key_first order_id (some key) now w.db in
    after_start-paid f order_id key now out.0 (record w { db = out.1 }) w' c
      (λ q e.
        start_or_resume-found f.look f.start_io f.look_again f.key_first order_id key now w.db out.1
          q (ap (λ r. (r, out.1)) e))
      h
