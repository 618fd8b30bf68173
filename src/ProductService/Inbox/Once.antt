-- ===== src/ProductService/Inbox/Once.antt =====
-- How often the consumer of product-service/consumer.go handles an event.
use microservice_architectur.Base.{
  ℕ, ◌+◌, ◌≤◌, ◌≡◌, Bool, true, false, Option, none, some, List, [], ◌∷◌, ◌==◌, any, subst, count,
  Error, Result, ok, err, arith, inl, inr, Bool-cases, Option-cases, Result-cases, ==_iff,
}
use microservice_architectur.Store.Rows.{any-false-count}
use microservice_architectur.ProductService.Inbox.{
  Consumer, Delivery, finish_inbox, is_fresh, process_with_inbox, commit_message, after_inbox,
  consume,
}

-- How often an event is in a list.
abbrev pub times : ℕ → List ℕ → ℕ
times id ids = count (λ i. i == id) ids

abbrev pub failures : Option Error → ℕ
failures none = 0
failures (some e) = 1

-- A delivery whose transaction is lost at its commit.
abbrev pub lost : Delivery → ℕ
lost d = failures (d.tx 2)

abbrev pub all_lost : List Delivery → ℕ
all_lost [] = 0
all_lost (d ∷ ds) = lost d + all_lost ds

-- `n` commits were lost so far; an event in the inbox was handled, and at most `n` times more than it
-- is there.
abbrev pub IsOnce : ℕ → Consumer → Type 0
IsOnce n c =
    (id : ℕ)
    → (times id c.inbox ≤ 1)
      × (times id c.inbox ≤ times id c.handled)
      × (times id c.handled ≤ times id c.inbox + n)

module _ (n id : ℕ) (fault : Option Error) (c : Consumer) (v : IsOnce n c) where
  finish_inbox-known :
      any (λ i. i == id) c.inbox ≡ true
      → IsOnce (failures fault + n) (finish_inbox (is_fresh id c.inbox) fault id c).1
  unfolding finish_inbox
  finish_inbox-known e k = elim (Option-cases fault) [
    | inl f ↦ let (a, b, d) = v k in rw e (rw f (a, b, omega arith))
    | inr (x, f) ↦ let (a, b, d) = v k in rw e (rw f (a, b, omega arith))
  ]

  finish_inbox-new :
      any (λ i. i == id) c.inbox ≡ false
      → IsOnce (failures fault + n) (finish_inbox (is_fresh id c.inbox) fault id c).1
  unfolding finish_inbox
  finish_inbox-new e k =
      let (a, b, d) = v k in
      let absent : times id c.inbox ≡ 0 = any-false-count (λ i. i == id) c.inbox e in
      elim (Bool-cases (id == k)) [
        | inl same ↦
            let absent_k : times k c.inbox ≡ 0 =
              subst (λ j. times j c.inbox ≡ 0) ((==_iff id k).0 same) absent in
            ground arith
        | inr other ↦ ground arith
      ]

  finish_inbox-IsOnce :
      IsOnce (failures fault + n) (finish_inbox (is_fresh id c.inbox) fault id c).1
  finish_inbox-IsOnce = elim (Bool-cases (any (λ i. i == id) c.inbox)) [
    | inl e ↦ finish_inbox-known e
    | inr e ↦ finish_inbox-new e
  ]

pub IsOnce-weaken : (n m : ℕ) (c : Consumer) → n ≤ m → IsOnce n c → IsOnce m c
IsOnce-weaken n m c le v k = let (a, b, d) = v k in (a, b, omega arith)

commit_message-IsOnce :
    (n : ℕ) (fault : Option Error) (offset : ℕ) (c : Consumer)
    → IsOnce n c
    → IsOnce n (commit_message fault offset c)
unfolding commit_message
commit_message-IsOnce n none offset c v = v
commit_message-IsOnce n (some e) offset c v = v

after_inbox-IsOnce :
    (n : ℕ) (fault : Option Error) (offset : ℕ) (r : Result Bool × Consumer)
    → IsOnce n r.1
    → IsOnce n (after_inbox fault offset r)
unfolding after_inbox
after_inbox-IsOnce n fault offset (err e, c) v = v
after_inbox-IsOnce n fault offset (ok b, c) v = commit_message-IsOnce n fault offset c v

process_with_inbox-IsOnce :
    (n id : ℕ) (d : Delivery) (c : Consumer)
    → IsOnce n c
    → IsOnce (lost d + n) (process_with_inbox d.tx id c).1
unfolding process_with_inbox
process_with_inbox-IsOnce n id d c v = elim (Option-cases (d.tx 0)) [
  | inr (e, f) ↦ rw (f, process_with_inbox) (IsOnce-weaken n (lost d + n) c (omega arith) v)
  | inl f ↦
      rw (f, process_with_inbox)
        (elim (Option-cases (d.tx 1)) [
          | inr (e, g) ↦ rw g (IsOnce-weaken n (lost d + n) c (omega arith) v)
          | inl g ↦ rw g (finish_inbox-IsOnce n id (d.tx 2) c v)
        ])
]

pub consume-IsOnce :
    (n : ℕ) (d : Delivery) (c : Consumer) → IsOnce n c → IsOnce (lost d + n) (consume d c)
unfolding consume
consume-IsOnce n d c v = elim (Result-cases d.fetched) [
  | inl (e, f) ↦ rw (f, consume) (IsOnce-weaken n (lost d + n) c (omega arith) v)
  | inr (m, f) ↦ elim (Option-cases m.event) [
    | inl g ↦
        rw (f, consume)
          (rw g (
            IsOnce-weaken n (lost d + n) (commit_message d.commit m.offset c) (omega arith)
              (commit_message-IsOnce n d.commit m.offset c v)))
    | inr (id, g) ↦
        rw (f, consume)
          (rw g (
            after_inbox-IsOnce (lost d + n) d.commit m.offset _
              (process_with_inbox-IsOnce n id d c v)))
  ]
]
