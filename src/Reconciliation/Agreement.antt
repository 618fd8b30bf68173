-- ===== src/Reconciliation/Agreement.antt =====
-- `Classify` of order-service/internal/reconciliation/classify.go, against a description of when two
-- ledgers agree.
use microservice_architectur.Base.{
  ◌≡◌, ◌≢◌, ◌↔◌, ◌⊎◌, refl, true, Option, none, some, arith, inl, inr,
}
use microservice_architectur.Domain.Payment.{PaymentStatus, can_transition_payment}
use microservice_architectur.Reconciliation.Classify.{
  matched, Action, no_action, manual, fix_payment_succeeded, fix_payment_failed,
  fix_refund_succeeded, RefundState, Ours, TheirStatus, Theirs, classify,
}

-- The pairs of records that need nobody's attention.
pub data Agree : Option Ours → Option Theirs → Type 0 where
  nothing : Agree none none
  only_declined : (t : Theirs) → t.status ≡ TheirStatus.declined → Agree none (some t)
  no_money_yet : (o : Ours) → o.status ≡ PaymentStatus.pending → Agree (some o) none
  no_money_failed : (o : Ours) → o.status ≡ PaymentStatus.failed → Agree (some o) none
  no_money_expired : (o : Ours) → o.status ≡ PaymentStatus.expired → Agree (some o) none
  both_charged :
      (o : Ours) (t : Theirs)
      → o.status ≡ PaymentStatus.succeeded
      → t.status ≡ TheirStatus.charged
      → o.amount ≡ t.amount
      → Agree (some o) (some t)
  both_declined :
      (o : Ours) (t : Theirs)
      → (o.status ≡ PaymentStatus.failed) ⊎ (o.status ≡ PaymentStatus.expired)
      → t.status ≡ TheirStatus.declined
      → Agree (some o) (some t)
  both_refunded :
      (o : Ours) (t : Theirs)
      → o.status ≡ PaymentStatus.refunded
      → o.refund_status ≡ RefundState.succeeded
      → t.status ≡ TheirStatus.refunded
      → o.amount ≡ t.amount
      → Agree (some o) (some t)

Agree-sound : {o : Option Ours} {t : Option Theirs} → Agree o t → (classify o t).kind ≡ matched
unfolding classify
Agree-sound nothing = refl
Agree-sound (only_declined t e) = ground arith
Agree-sound (no_money_yet o e) = ground arith
Agree-sound (no_money_failed o e) = ground arith
Agree-sound (no_money_expired o e) = ground arith
Agree-sound (both_charged o t e f g) = ground arith
Agree-sound (both_declined o t e f) = ground arith
Agree-sound (both_refunded o t e r f g) = ground arith

ours_alone :
    (o : Ours)
    → (classify (some o) none).kind ≡ matched
    → (o.status ≡ PaymentStatus.pending)
      ⊎ ((o.status ≡ PaymentStatus.failed) ⊎ (o.status ≡ PaymentStatus.expired))
unfolding classify
ours_alone o h = grind arith

abbrev BothAgree : Ours → Theirs → Type 0
BothAgree o t =
    ((o.status ≡ PaymentStatus.succeeded)
      × (t.status ≡ TheirStatus.charged)
      × (o.amount ≡ t.amount))
    ⊎ ((((o.status ≡ PaymentStatus.failed) ⊎ (o.status ≡ PaymentStatus.expired))
          × (t.status ≡ TheirStatus.declined))
        ⊎ ((o.status ≡ PaymentStatus.refunded)
            × (o.refund_status ≡ RefundState.succeeded)
            × (t.status ≡ TheirStatus.refunded)
            × (o.amount ≡ t.amount)))

both_there :
    (o : Ours) (t : Theirs) (s : PaymentStatus)
    → o.status ≡ s
    → (classify (some o) (some t)).kind ≡ matched
    → BothAgree o t
unfolding classify
both_there o t PaymentStatus.succeeded e h = inl (e, ground arith, ground arith)
both_there o t PaymentStatus.failed e h = inr (inl (inl e, ground arith))
both_there o t PaymentStatus.expired e h = inr (inl (inr e, ground arith))
both_there o t PaymentStatus.refunded e h = inr (inr (e, ground arith, ground arith, ground arith))
both_there o t PaymentStatus.pending e h = absurd (ground arith)
both_there o t (PaymentStatus.other n) e h = absurd (ground arith)

Agree-complete : (o : Option Ours) (t : Option Theirs) → (classify o t).kind ≡ matched → Agree o t
unfolding classify
Agree-complete none none h = nothing
Agree-complete none (some t) h = only_declined t (ground arith)
Agree-complete (some o) none h = elim (ours_alone o h) [
  | inl e ↦ no_money_yet o e
  | inr (inl e) ↦ no_money_failed o e
  | inr (inr e) ↦ no_money_expired o e
]
Agree-complete (some o) (some t) h = elim (both_there o t o.status refl h) [
  | inl (s, c, a) ↦ both_charged o t s c a
  | inr (inl (s, d)) ↦ both_declined o t s d
  | inr (inr (s, r, d, a)) ↦ both_refunded o t s r d a
]

-- For every pair of records, either of which may be missing, `Classify` reports "matched" exactly
-- when the two agree: neither side moved money, or both did by the same amount and with the same
-- outcome.
pub classify-Agree :
    (o : Option Ours) (t : Option Theirs) → ((classify o t).kind ≡ matched) ↔ Agree o t
classify-Agree o t = (Agree-complete o t, Agree-sound)

-- What an automatic repair rests on: the provider's own record, and our state machine.
abbrev pub Justified : Action → Ours → Theirs → Type 0
Justified fix_payment_succeeded o t =
    (can_transition_payment o.status PaymentStatus.succeeded ≡ true)
    × (t.status ≡ TheirStatus.charged)
    × (o.amount ≡ t.amount)
Justified fix_payment_failed o t =
    (can_transition_payment o.status PaymentStatus.failed ≡ true)
    × (t.status ≡ TheirStatus.declined)
Justified fix_refund_succeeded o t =
    ((can_transition_payment o.status PaymentStatus.refunded ≡ true)
      ⊎ (o.status ≡ PaymentStatus.refunded))
    × (t.status ≡ TheirStatus.refunded)
    × (o.amount ≡ t.amount)
    × (o.refund_id ≢ 0)
    × (o.refund_status ≢ RefundState.succeeded)
Justified no_action o t = Agree (some o) (some t)
Justified manual o t = (classify (some o) (some t)).kind ≢ matched

justified :
    (o : Ours) (t : Theirs) (a : Action) → (classify (some o) (some t)).action ≡ a → Justified a o t
unfolding classify can_transition_payment
justified o t fix_payment_succeeded e = ground arith
justified o t fix_payment_failed e = ground arith
justified o t fix_refund_succeeded e = ground arith
justified o t no_action e = Agree-complete (some o) (some t) (ground arith)
justified o t manual e = ground arith

-- What `Classify` decides about a pair of records is justified for each action. It acts on nothing
-- only if the two agree, and calls for a person only if they do not. A success is recorded only for a
-- pending payment that the provider has charged by the same amount, a failure only for a pending
-- payment that it has declined, and a refund as done only if it has refunded the same amount, the
-- refund is open with us, and the payment is succeeded (from which `refunded` may follow) or refunded
-- already.
pub classify-safe : (o : Ours) (t : Theirs) → Justified (classify (some o) (some t)).action o t
classify-safe o t = justified o t (classify (some o) (some t)).action refl
