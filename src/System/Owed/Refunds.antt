-- ===== src/System/Owed/Refunds.antt =====
-- The refunds that a cancellation puts down, `CancelOrder` of
-- order-service/internal/repository/order.go.
use microservice_architectur.Base.{
  ℕ, ◌≤◌, ◌≡◌, refl, Bool, true, none, List, [], ◌∷◌, ◌==◌, any, All, arith, ==_refl, ap, sym,
  Bool-cases, inl, inr,
}
use microservice_architectur.Store.{Db, PaymentRow, RefundRow, RefundStatus}
use microservice_architectur.Store.Rows.{All-imp, All-and, any-false-count}
use microservice_architectur.Orders.Cancel.{insert_refund, insert_refunds}
use microservice_architectur.System.Owed.{is_refund_of, refunds_for}

abbrev pub new_refund : ℕ → ℕ → PaymentRow → RefundRow
new_refund id now p = record {
  id = id;
  payment_id = p.id;
  amount = p.amount;
  status = RefundStatus.pending;
  attempts = 0;
  next_attempt_at = now;
  provider_refund_id = none;
}

abbrev pub Agrees : PaymentRow → RefundRow → Type 0
Agrees p r = p.id ≡ r.payment_id → p.amount ≡ r.amount

-- What holds of the refunds there are, and of the new ones, holds of all.
insert_refund-keep :
    (P : RefundRow → Type 0) (now : ℕ) (p : PaymentRow) (db : Db)
    → All P db.refunds
    → ((n : ℕ) → P (new_refund n now p))
    → All P (insert_refund now p db).refunds
unfolding insert_refund
insert_refund-keep P now p db h new =
    elim (Bool-cases (any (λ (r : RefundRow). r.payment_id == p.id) db.refunds)) [
      | inl e ↦ rw e h
      | inr e ↦ rw e (new db.next_id, h)
    ]

pub insert_refunds-keep :
    (P : RefundRow → Type 0) (now : ℕ) (ps : List PaymentRow) (db : Db)
    → All P db.refunds
    → All (λ p. (n : ℕ) → P (new_refund n now p)) ps
    → All P (insert_refunds now ps db).refunds
unfolding insert_refunds
insert_refunds-keep P now [] db h new = h
insert_refunds-keep P now (p ∷ ps) db h new =
    insert_refunds-keep P now ps (insert_refund now p db) (insert_refund-keep P now p db h new.0)
      new.1

-- No refund goes.
pub insert_refunds-any :
    (q : RefundRow → Bool) (now : ℕ) (ps : List PaymentRow) (db : Db)
    → any q db.refunds ≡ true
    → any q (insert_refunds now ps db).refunds ≡ true
unfolding insert_refunds insert_refund
insert_refunds-any q now [] db h = h
insert_refunds-any q now (p ∷ ps) db h =
    insert_refunds-any q now ps (insert_refund now p db) (ground (arith, h))

pub insert_refunds-one :
    (k now : ℕ) (ps : List PaymentRow) (db : Db)
    → refunds_for k db.refunds ≤ 1
    → refunds_for k (insert_refunds now ps db).refunds ≤ 1
unfolding insert_refunds insert_refund
insert_refunds-one k now [] db h = h
insert_refunds-one k now (p ∷ ps) db h =
    insert_refunds-one k now ps (insert_refund now p db)
      (elim (Bool-cases (any (λ (r : RefundRow). r.payment_id == p.id) db.refunds)) [
        | inl e ↦ rw e h
        | inr e ↦ rw e (ground (arith, any-false-count (λ r. r.payment_id == p.id) db.refunds e))
      ])

found_match :
    (p : PaymentRow) (rs : List RefundRow)
    → All (Agrees p) rs
    → any (λ r. r.payment_id == p.id) rs ≡ true
    → any (is_refund_of p) rs ≡ true
found_match p [] h e = e
found_match p (r ∷ rs) h e = ground (arith, found_match p rs h.1, h.0)

insert_refund-present :
    (now : ℕ) (p : PaymentRow) (db : Db)
    → All (Agrees p) db.refunds
    → any (is_refund_of p) (insert_refund now p db).refunds ≡ true
unfolding insert_refund
insert_refund-present now p db h =
    elim (Bool-cases (any (λ (r : RefundRow). r.payment_id == p.id) db.refunds)) [
      | inl e ↦ rw e (found_match p db.refunds h e)
      | inr e ↦ rw e (rw (==_refl p.id, ==_refl p.amount) refl)
    ]

-- Each of the payments has its refund then.
pub insert_refunds-present :
    (now : ℕ) (ps : List PaymentRow) (db : Db)
    → All (λ p. All (Agrees p) db.refunds) ps
    → All (λ p. All (λ (q : PaymentRow). q.id ≡ p.id → q ≡ p) ps) ps
    → All (λ p. any (is_refund_of p) (insert_refunds now ps db).refunds ≡ true) ps
unfolding insert_refunds
insert_refunds-present now [] db h u = tt
insert_refunds-present now (p ∷ ps) db h u = (
  insert_refunds-any (is_refund_of p) now ps (insert_refund now p db)
      (insert_refund-present now p db h.0),
  insert_refunds-present now ps (insert_refund now p db)
      (All-imp
        (λ x. All (Agrees x) db.refunds × All (λ (q : PaymentRow). q.id ≡ x.id → q ≡ x) (p ∷ ps)) _
        ps
        (λ x a.
          insert_refund-keep (Agrees x) now p db a.0
            (λ n e. ap (λ (y : PaymentRow). y.amount) (sym (a.1.0 (sym e)))))
        (All-and (λ x. All (Agrees x) db.refunds)
          (λ x. All (λ (q : PaymentRow). q.id ≡ x.id → q ≡ x) (p ∷ ps)) ps h.1 u.1))
      (All-imp (λ x. All (λ (q : PaymentRow). q.id ≡ x.id → q ≡ x) (p ∷ ps)) _ ps (λ x a. a.1) u.1),
)
