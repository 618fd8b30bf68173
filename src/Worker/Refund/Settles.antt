-- ===== src/Worker/Refund/Settles.antt =====
-- A whole round of the refund worker of order-service/internal/worker/refund_worker.go, when nothing
-- fails.
use microservice_architectur.Base.{
  ℕ, ◌+◌, ◌≤◌, ◌≡◌, ◌≢◌, refl, ◌∙◌, Bool, true, false, Option, none, some, List, [], ◌∷◌, ◌==◌,
  if◌then◌else◌, find, any, count, map, select, All, Result, arith, subst, sym, not, ltb,
}
use microservice_architectur.Domain.Payment.{PaymentStatus}
use microservice_architectur.Store.{Db, PaymentRow, RefundRow, RefundStatus}
use microservice_architectur.Store.Rows.{Below, All-imp, All-and, find-update_elsewhere}
use microservice_architectur.Store.Keys.{find_self, Below-count}
use microservice_architectur.Store.Batches.{
  All-select, select-true, All-batch, batch-All, count-batch, Differ, count-Differ,
}
use microservice_architectur.Worker.Refund.{
  RefundWorker, DueRefund, Faults, is_pending, lease_refunds, due_batch, due_refund, is_due,
  process_due,
}
use microservice_architectur.Worker.Refund.Pays.{
  IsPayable, IsPaidOut, IsApart, AllApart, AreHealthy, Accepts, refund_all-IsPaidOut,
}

-- The refunds that the round asks the provider for.
abbrev pub asked : RefundWorker → (ℕ → Bool) → ℕ → Db → List DueRefund
asked w locked now db =
    let rows = due_batch w locked now db in map (due_refund (lease_refunds w now rows db)) rows

-- The payment of an open refund has succeeded.
abbrev pub HasMoney : Db → RefundRow → Type 0
HasMoney db r =
    r.status ≡ RefundStatus.pending
    → (p : PaymentRow) × (find (λ p. p.id == r.payment_id) db.payments ≡ some p)
      × (p.status ≡ PaymentStatus.succeeded)

due_is_pending : (s : RefundStatus) → is_pending s ≡ true → s ≡ RefundStatus.pending
due_is_pending RefundStatus.pending e = refl
due_is_pending RefundStatus.succeeded e = absurd (cc)
due_is_pending RefundStatus.manual_review e = absurd (cc)

leased_row-pending :
    (b : Bool) (f : RefundRow → RefundRow) (r : RefundRow)
    → (f r).status ≡ r.status
    → (if b then f r else r).status ≡ r.status
leased_row-pending true f r same = same
leased_row-pending false f r same = refl

module _ (w : RefundWorker) (locked : ℕ → Bool) (now bound : ℕ) (db : Db)
    (keyed : Below (λ r. r.id) bound db.refunds)
    (one_refund : (k : ℕ) → count (λ r. r.payment_id == k) db.refunds ≤ 1)
    (money : All (HasMoney db) db.refunds) where
  abbrev rows : List RefundRow
  rows = due_batch w locked now db

  abbrev is_row : RefundRow → Bool
  is_row r = any (λ (q : RefundRow). q.id == r.id) rows

  abbrev leased : RefundRow → RefundRow
  leased r = record r { attempts = r.attempts + 1; next_attempt_at = now + w.lease }

  row-IsPayable :
      (r : RefundRow)
      → find (λ x. x.id == r.id) db.refunds ≡ some r
      → HasMoney db r
      → is_due locked now r ≡ true
      → IsPayable (lease_refunds w now rows db) (due_refund (lease_refunds w now rows db) r)
  unfolding lease_refunds due_refund
  row-IsPayable r found h due =
      let open' : r.status ≡ RefundStatus.pending = due_is_pending r.status (ground arith) in
      (
        (
          (if is_row r then leased r else r),
          find-update_elsewhere (λ x. x.id == r.id) is_row leased db.refunds r (λ x. refl) found,
          leased_row-pending (is_row r) leased r refl ∙ open',
        ),
        h open',
      )

  rows-IsPayable :
      All
        (λ r. IsPayable (lease_refunds w now rows db) (due_refund (lease_refunds w now rows db) r))
        rows
  unfolding due_batch
  rows-IsPayable = All-batch _ w.batch (is_due locked now) db.refunds (
      All-imp
        (λ r.
          (is_due locked now r ≡ true)
          × ((find (λ x. x.id == r.id) db.refunds ≡ some r) × HasMoney db r))
        _ (select (is_due locked now) db.refunds) (λ r h. row-IsPayable r h.1.0 h.1.1 h.0)
        (All-and (λ r. is_due locked now r ≡ true) _ (select (is_due locked now) db.refunds)
          (select-true (is_due locked now) db.refunds)
          (All-select _ (is_due locked now) db.refunds (
            All-and (λ r. find (λ x. x.id == r.id) db.refunds ≡ some r) (HasMoney db) db.refunds
              (find_self (λ r. r.id) bound db.refunds keyed) money))))

  rows-Differ : Differ (λ r. r.id) rows × Differ (λ r. r.payment_id) rows
  unfolding due_batch
  rows-Differ = (
    count-Differ (λ r. r.id) rows
        (λ k. omega (
          arith,
          count-batch (λ r. r.id == k) w.batch (is_due locked now) db.refunds,
          Below-count (λ r. r.id) bound k db.refunds keyed,
        )),
    count-Differ (λ r. r.payment_id) rows
        (λ k. omega (
          arith,
          count-batch (λ r. r.payment_id == k) w.batch (is_due locked now) db.refunds,
          one_refund k,
        )),
  )

count-same :
    (p q : RefundRow → Bool) (rs : List RefundRow)
    → ((r : RefundRow) → p r ≡ q r)
    → count p rs ≡ count q rs
count-same p q [] same = refl
count-same p q (r ∷ rs) same = ground (arith, same r, count-same p q rs same)

-- The list as it is asked for.
All-due :
    (P : DueRefund → Type 0) (d : Db) (rs : List RefundRow)
    → All (λ r. P (due_refund d r)) rs
    → All P (map (due_refund d) rs)
All-due P d [] h = tt
All-due P d (r ∷ rs) h = (h.0, All-due P d rs h.1)

due_apart :
    (d : Db) (rs : List RefundRow)
    → Differ (λ r. r.id) rs
    → Differ (λ r. r.payment_id) rs
    → AllApart (map (due_refund d) rs)
unfolding due_refund
due_apart d [] ids payments = tt
due_apart d (r ∷ rs) ids payments = (
  All-due (IsApart (due_refund d r)) d rs (
      All-and (λ (x : RefundRow). x.id ≢ r.id) (λ x. x.payment_id ≢ r.payment_id) rs ids.0
        payments.0),
  due_apart d rs ids.1 payments.1,
)

process_due-asked :
    {S : Type 0} (refund : ℕ → Option ℕ → ℕ → S → Result ℕ × S) (w : RefundWorker)
    (locked : ℕ → Bool) (now bound : ℕ) (faults : ℕ → Faults) (s : S) (db : Db)
    → AreHealthy faults
    → Below (λ r. r.id) bound db.refunds
    → ((k : ℕ) → count (λ r. r.payment_id == k) db.refunds ≤ 1)
    → All (HasMoney db) db.refunds
    → Accepts refund (asked w locked now db)
    → All
        (IsPaidOut (process_due refund w none none locked now faults s db).1.1)
        (asked w locked now db)
unfolding process_due
process_due-asked refund w locked now bound faults s db fine keyed one money accepts =
    let rs = due_batch w locked now db in
    let leased = lease_refunds w now rs db in
    let differ = rows-Differ w locked now bound db keyed one money in
    refund_all-IsPaidOut refund w faults fine (asked w locked now db) s leased accepts
      (due_apart leased rs differ.0 differ.1)
      (All-due (IsPayable leased) leased rs (rows-IsPayable w locked now bound db keyed one money))

-- A refund that waits for its payment: it is open, its time has come, and no other worker holds it.
abbrev pub waits : (ℕ → Bool) → ℕ → RefundRow → Bool
waits locked now r = elim r.status [
  | RefundStatus.pending ↦ if ltb now r.next_attempt_at then false else not (locked r.id)
  | RefundStatus.succeeded ↦ false
  | RefundStatus.manual_review ↦ false
]

waits-is_due :
    (locked : ℕ → Bool) (now : ℕ) (r : RefundRow) → is_due locked now r ≡ waits locked now r
waits-is_due locked now r = ground arith

-- The refund has succeeded, and its payment is refunded.
abbrev pub IsPaid : Db → RefundRow → Type 0
IsPaid db r =
    ((x : RefundRow) × (find (λ x. x.id == r.id) db.refunds ≡ some x)
      × (x.status ≡ RefundStatus.succeeded))
    × ((p : PaymentRow) × (find (λ p. p.id == r.payment_id) db.payments ≡ some p)
        × (p.status ≡ PaymentStatus.refunded))

asked-IsPaid :
    (d db : Db) (rs : List RefundRow)
    → All (IsPaidOut db) (map (due_refund d) rs)
    → All (IsPaid db) rs
unfolding due_refund
asked-IsPaid d db [] h = tt
asked-IsPaid d db (r ∷ rs) h = (h.0, asked-IsPaid d db rs h.1)

-- A refund that is due is paid out. In a round of the refund worker in which no statement fails, if
-- the refunds have their keys, no payment has two of them, the payment of each open refund has
-- succeeded, no more refunds are due than a batch holds, and the provider accepts each refund that it
-- is asked for: then every refund of the table that was open, whose time had come and which no other
-- worker held, is "succeeded" afterwards and its payment is "refunded".
pub process_due-IsPaidOut :
    {S : Type 0} (refund : ℕ → Option ℕ → ℕ → S → Result ℕ × S) (w : RefundWorker)
    (locked : ℕ → Bool) (now bound : ℕ) (faults : ℕ → Faults) (s : S) (db : Db)
    → AreHealthy faults
    → Below (λ r. r.id) bound db.refunds
    → ((k : ℕ) → count (λ r. r.payment_id == k) db.refunds ≤ 1)
    → All (HasMoney db) db.refunds
    → count (waits locked now) db.refunds ≤ w.batch
    → Accepts refund (asked w locked now db)
    → let db' = (process_due refund w none none locked now faults s db).1.1 in
      All (λ r. waits locked now r ≡ true → IsPaid db' r) db.refunds
unfolding due_batch
process_due-IsPaidOut refund w locked now bound faults s db fine keyed one money room accepts =
    let db' = (process_due refund w none none locked now faults s db).1.1 in
    let rs = due_batch w locked now db in
    let same : (r : RefundRow) → is_due locked now r ≡ waits locked now r =
      waits-is_due locked now in
    All-imp (λ r. is_due locked now r ≡ true → IsPaid db' r) _ db.refunds
      (λ r h due. h (same r ∙ due))
      (batch-All (IsPaid db') w.batch (is_due locked now) db.refunds
        (subst (λ n. n ≤ w.batch)
          (count-same (waits locked now) (is_due locked now) db.refunds (λ r. sym (same r))) room)
        (asked-IsPaid (lease_refunds w now rs db) db' rs
          (process_due-asked refund w locked now bound faults s db fine keyed one money accepts)))
