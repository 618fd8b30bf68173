-- ===== src/Payments/Kept.antt =====
-- The invariant of the payments' store under the changes of Payments/Change.antt.
use microservice_architectur.Base.{◌≡◌, Bool, update, arith}
use microservice_architectur.Store.{Db, PaymentRow}
use microservice_architectur.Store.Rows.{Below-update, All-imp, All-update, count-update-le}
use microservice_architectur.Payments.{is_active}
use microservice_architectur.Payments.Change.{
  Change, Changes, Changes-keep, begin, move, note_payments, note_refunds,
}
use microservice_architectur.Payments.Invariant.{
  IsValid, Logged, Settled, started-IsValid, moved-IsValid, refunds-IsValid,
}

-- An update of the payments' bookkeeping.
module _ (q : PaymentRow → Bool) (f : PaymentRow → PaymentRow)
    (same_id : (p : PaymentRow) → (f p).id ≡ p.id)
    (same_order : (p : PaymentRow) → (f p).order_id ≡ p.order_id)
    (unmoved : (p : PaymentRow) → (f p).status ≡ p.status) where
  noted-IsValid : (db : Db) → IsValid db → IsValid (record db { payments = update q f db.payments })
  noted-IsValid db v = record {
    fresh = Below-update (λ p. p.id) db.next_id q f db.payments same_id v.fresh;
    one_active = λ o. omega (
      arith,
      v.one_active o,
      count-update-le (is_active o) q f db.payments (
          All-imp (Logged db.payment_events) _ db.payments
            (λ p h t a. grind (arith, same_order p, unmoved p)) v.logged),
    );
    logged = All-update (Logged db.payment_events) q f db.payments (
        All-imp (Logged db.payment_events) _ db.payments
          (λ p h. ((λ t. rw (same_id p, unmoved p) h), (λ e. h))) v.logged);
    settled = All-update (Settled db.orders) q f db.payments (
        All-imp (Settled db.orders) _ db.payments
          (λ p h. ((λ t. rw (same_order p, unmoved p) h), (λ e. h))) v.settled);
  }

pub Change-IsValid : (db db' : Db) → Change db db' → IsValid db → IsValid db'
Change-IsValid db db' (begin order_id key now o found pending free fresh same) v =
    rw same (started-IsValid order_id key now db v free)
Change-IsValid db db' (move id p to charge found can same) v =
    rw same (moved-IsValid id p to charge db v found can)
Change-IsValid db db' (note_payments q f kept same) v =
    rw same (noted-IsValid q f (λ p. (kept p).0) (λ p. (kept p).1) (λ p. (kept p).2) db v)
Change-IsValid db db' (note_refunds q f kept same) v = rw same (refunds-IsValid _ db v)

pub Changes-IsValid : {db db' : Db} → Changes db db' → IsValid db → IsValid db'
Changes-IsValid cs v = Changes-keep IsValid Change-IsValid cs v
