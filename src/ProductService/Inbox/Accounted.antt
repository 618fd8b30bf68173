-- ===== src/ProductService/Inbox/Accounted.antt =====
-- For which messages the consumer of product-service/consumer.go calls CommitMessages.
use microservice_architectur.Base.{
  ℕ, ◌≡◌, refl, Bool, true, Option, none, some, List, ◌∷◌, ◌==◌, any, All, Error, Result, ok, err,
  arith, inl, inr, ◌⊎◌, Bool-cases, Option-cases, Result-cases, ==_refl, sym, ◌∙◌,
}
use microservice_architectur.Store.Rows.{All-imp}
use microservice_architectur.ProductService.Inbox.{
  Consumer, Message, Delivery, finish_inbox, is_fresh, process_with_inbox, commit_message,
  after_inbox, consume,
}

-- The message at an offset cannot be read, or its event is in the inbox; `topic` is what can be read
-- at an offset.
abbrev pub IsDone : (ℕ → Option ℕ) → List ℕ → ℕ → Type 0
IsDone topic inbox o =
    (topic o ≡ none) ⊎ ((id : ℕ) × (topic o ≡ some id) × (any (λ i. i == id) inbox ≡ true))

-- Every message that CommitMessages was called with is done with.
abbrev pub Accounted : (ℕ → Option ℕ) → Consumer → Type 0
Accounted topic c = All (IsDone topic c.inbox) c.commits

-- The reader hands over what stands in the topic.
abbrev pub FromTopic : (ℕ → Option ℕ) → Delivery → Type 0
FromTopic topic d = (m : Message) → d.fetched ≡ ok m → m.event ≡ topic m.offset

pub IsDone-more :
    (topic : ℕ → Option ℕ) (id : ℕ) (inbox : List ℕ) (o : ℕ)
    → IsDone topic inbox o
    → IsDone topic (id ∷ inbox) o
IsDone-more topic id inbox o (inl unread) = inl unread
IsDone-more topic id inbox o (inr (k, e, there)) = inr (k, e, ground (arith, there))

-- The result of a transaction: what was committed before is still accounted for, and if it has not
-- failed, the event is in the inbox.
abbrev pub Remembered : (ℕ → Option ℕ) → ℕ → Result Bool × Consumer → Type 0
Remembered topic id r =
    Accounted topic r.1 × ((b : Bool) → r.0 ≡ ok b → any (λ i. i == id) r.1.inbox ≡ true)

finish_inbox-Remembered :
    (topic : ℕ → Option ℕ) (fault : Option Error) (id : ℕ) (c : Consumer)
    → Accounted topic c
    → Remembered topic id (finish_inbox (is_fresh id c.inbox) fault id c)
unfolding finish_inbox
finish_inbox-Remembered topic fault id c h = elim (Bool-cases (any (λ i. i == id) c.inbox)) [
  | inl e ↦ elim (Option-cases fault) [
    | inl f ↦ rw e (rw f (h, λ b s. e))
    | inr (x, f) ↦ rw e (rw f (h, λ b s. absurd (ground arith)))
  ]
  | inr e ↦ elim (Option-cases fault) [
    | inl f ↦ rw e (
        rw f (
          All-imp (IsDone topic c.inbox) (IsDone topic (id ∷ c.inbox)) c.commits
              (λ o done. IsDone-more topic id c.inbox o done) h,
          λ b s. rw (==_refl id) refl,
        ))
    | inr (x, f) ↦ rw e (rw f (h, λ b s. absurd (ground arith)))
  ]
]

pub process_with_inbox-Remembered :
    (topic : ℕ → Option ℕ) (tx : ℕ → Option Error) (id : ℕ) (c : Consumer)
    → Accounted topic c
    → Remembered topic id (process_with_inbox tx id c)
unfolding process_with_inbox
process_with_inbox-Remembered topic tx id c h = elim (Option-cases (tx 0)) [
  | inr (e, f) ↦ rw (f, process_with_inbox) (h, λ b s. absurd (ground arith))
  | inl f ↦
      rw (f, process_with_inbox)
        (elim (Option-cases (tx 1)) [
          | inr (e, g) ↦ rw g (h, λ b s. absurd (ground arith))
          | inl g ↦ rw g (finish_inbox-Remembered topic (tx 2) id c h)
        ])
]

commit_message-Accounted :
    (topic : ℕ → Option ℕ) (fault : Option Error) (offset : ℕ) (c : Consumer)
    → IsDone topic c.inbox offset
    → Accounted topic c
    → Accounted topic (commit_message fault offset c)
unfolding commit_message
commit_message-Accounted topic none offset c done h = (done, h)
commit_message-Accounted topic (some e) offset c done h = h

after_inbox-Accounted :
    (topic : ℕ → Option ℕ) (fault : Option Error) (offset id : ℕ) (r : Result Bool × Consumer)
    → topic offset ≡ some id
    → Remembered topic id r
    → Accounted topic (after_inbox fault offset r)
unfolding after_inbox
after_inbox-Accounted topic fault offset id (err e, c) here (h, there) = h
after_inbox-Accounted topic fault offset id (ok b, c) here (h, there) =
    commit_message-Accounted topic fault offset c (inr (id, here, there b refl)) h

pub consume-Accounted :
    (topic : ℕ → Option ℕ) (d : Delivery) (c : Consumer)
    → FromTopic topic d
    → Accounted topic c
    → Accounted topic (consume d c)
unfolding consume
consume-Accounted topic d c from h = elim (Result-cases d.fetched) [
  | inl (e, f) ↦ rw (f, consume) h
  | inr (m, f) ↦ elim (Option-cases m.event) [
    | inl g ↦
        rw (f, consume)
          (rw g (commit_message-Accounted topic d.commit m.offset c (inl (sym (from m f) ∙ g)) h))
    | inr (id, g) ↦
        rw (f, consume)
          (rw g (
            after_inbox-Accounted topic d.commit m.offset id _ (sym (from m f) ∙ g)
              (process_with_inbox-Remembered topic d.tx id c h)))
  ]
]
