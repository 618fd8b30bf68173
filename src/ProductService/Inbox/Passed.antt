-- ===== src/ProductService/Inbox/Passed.antt =====
-- Which messages the offset of the group of product-service/consumer.go has passed.
use microservice_architectur.Base.{
  ℕ, ◌+◌, ◌≤◌, ◌≡◌, refl, Bool, true, false, Option, none, some, List, [], ◌∷◌, Error, Result, ok,
  err, arith, inl, inr, ◌⊎◌, Option-cases, Result-cases, sym, ap, ◌∙◌, Io,
}
use Prim.Native.Nat.{max}
use microservice_architectur.ProductService.Inbox.{
  Consumer, Message, Delivery, finish_inbox, is_fresh, process_with_inbox, commit_message,
  after_inbox, consume, position,
}
use microservice_architectur.ProductService.Inbox.Accounted.{
  IsDone, Accounted, FromTopic, process_with_inbox-Remembered, IsDone-more,
}

-- The database fails a statement or the commit of a delivery's transaction.
abbrev pub Fails : Io → Type 0
Fails tx = ¬ ((tx 0 ≡ none) × (tx 1 ≡ none) × (tx 2 ≡ none))

-- A delivery of the message at `o` whose transaction met a failure of the database.
abbrev pub FailedAt : ℕ → Delivery → Type 0
FailedAt o d = (m : Message) × (d.fetched ≡ ok m) × (m.offset ≡ o) × Fails d.tx

abbrev pub FailedIn : ℕ → List Delivery → Type 0
FailedIn o [] = ⊥
FailedIn o (d ∷ ds) = FailedAt o d ⊎ FailedIn o ds

-- The first message that has not been handed over yet, `next` before.
abbrev pub reached : Delivery → ℕ → ℕ
reached d next = elim d.fetched [ err e ↦ next | ok m ↦ max (m.offset + 1) next ]

abbrev pub all_reached : List Delivery → ℕ → ℕ
all_reached [] next = next
all_reached (d ∷ ds) next = all_reached ds (reached d next)

-- The reader skips no message: it hands over the next one, or one that it has handed over before.
abbrev pub InOrder : ℕ → List Delivery → Type 0
InOrder next [] = Unit
InOrder next (d ∷ ds) =
    ((m : Message) → d.fetched ≡ ok m → m.offset ≤ next) × InOrder (reached d next) ds

finish_inbox-keeps :
    (topic : ℕ → Option ℕ) (fresh : Bool) (fault : Option Error) (id o : ℕ) (c : Consumer)
    → IsDone topic c.inbox o
    → IsDone topic (finish_inbox fresh fault id c).1.inbox o
      × ((finish_inbox fresh fault id c).1.commits ≡ c.commits)
unfolding finish_inbox
finish_inbox-keeps topic false none id o c h = (h, refl)
finish_inbox-keeps topic false (some e) id o c h = (h, refl)
finish_inbox-keeps topic true none id o c h = (IsDone-more topic id c.inbox o h, refl)
finish_inbox-keeps topic true (some e) id o c h = (h, refl)

process_with_inbox-keeps :
    (topic : ℕ → Option ℕ) (tx : Io) (id o : ℕ) (c : Consumer)
    → IsDone topic c.inbox o
    → IsDone topic (process_with_inbox tx id c).1.inbox o
unfolding process_with_inbox
process_with_inbox-keeps topic tx id o c h = elim (Option-cases (tx 0)) [
  | inr (e, f) ↦ rw (f, process_with_inbox) h
  | inl f ↦
      rw (f, process_with_inbox)
        (elim (Option-cases (tx 1)) [
          | inr (e, g) ↦ rw g h
          | inl g ↦ rw g (finish_inbox-keeps topic (is_fresh id c.inbox) (tx 2) id o c h).0
        ])
]

finish_inbox-commits :
    (fresh : Bool) (fault : Option Error) (id : ℕ) (c : Consumer)
    → (finish_inbox fresh fault id c).1.commits ≡ c.commits
unfolding finish_inbox
finish_inbox-commits false none id c = refl
finish_inbox-commits false (some e) id c = refl
finish_inbox-commits true none id c = refl
finish_inbox-commits true (some e) id c = refl

process_with_inbox-commits :
    (tx : Io) (id : ℕ) (c : Consumer) → (process_with_inbox tx id c).1.commits ≡ c.commits
unfolding process_with_inbox
process_with_inbox-commits tx id c =
    ground (arith, finish_inbox-commits (is_fresh id c.inbox) (tx 2) id c)

finish_inbox-fine :
    (fresh : Bool) (id : ℕ) (c : Consumer) → (b : Bool) × ((finish_inbox fresh none id c).0 ≡ ok b)
unfolding finish_inbox
finish_inbox-fine false id c = (false, refl)
finish_inbox-fine true id c = (true, refl)

process_with_inbox-fine :
    (tx : Io) (id : ℕ) (c : Consumer)
    → tx 0 ≡ none
    → tx 1 ≡ none
    → tx 2 ≡ none
    → (b : Bool) × ((process_with_inbox tx id c).0 ≡ ok b)
unfolding process_with_inbox
process_with_inbox-fine tx id c f g h =
    rw (f, process_with_inbox) (rw g (rw h (finish_inbox-fine (is_fresh id c.inbox) id c)))

commit_message-inbox :
    (fault : Option Error) (offset : ℕ) (c : Consumer)
    → ((commit_message fault offset c).inbox ≡ c.inbox)
      × (position (commit_message fault offset c).commits ≤ max (offset + 1) (position c.commits))
unfolding commit_message
commit_message-inbox none offset c = (refl, omega arith)
commit_message-inbox (some e) offset c = (refl, omega arith)

after_inbox-inbox :
    (fault : Option Error) (offset : ℕ) (r : Result Bool × Consumer)
    → ((after_inbox fault offset r).inbox ≡ r.1.inbox)
      × (position (after_inbox fault offset r).commits ≤ max (offset + 1) (position r.1.commits))
unfolding after_inbox
after_inbox-inbox fault offset (err e, c) = (refl, omega arith)
after_inbox-inbox fault offset (ok b, c) = commit_message-inbox fault offset c

-- A transaction either meets a failure, or none of its statements fails.
Fails-cases : (tx : Io) → Fails tx ⊎ ((tx 0 ≡ none) × (tx 1 ≡ none) × (tx 2 ≡ none))
Fails-cases tx = elim (Option-cases (tx 0)) [
  | inr (e, f) ↦ inl (λ h. absurd (let no = h.0 in cc))
  | inl f ↦ elim (Option-cases (tx 1)) [
    | inr (e, g) ↦ inl (λ h. absurd (let no = h.1 in cc))
    | inl g ↦ elim (Option-cases (tx 2)) [
      | inr (e, k) ↦ inl (λ h. absurd (let no = h.2 in cc))
      | inl k ↦ inr (f, g, k)
    ]
  ]
]

-- The message of a delivery is done with afterwards, or its transaction met a failure.
pub consume-this :
    (topic : ℕ → Option ℕ) (d : Delivery) (m : Message) (c : Consumer)
    → FromTopic topic d
    → Accounted topic c
    → d.fetched ≡ ok m
    → IsDone topic (consume d c).inbox m.offset ⊎ FailedAt m.offset d
unfolding consume
consume-this topic d m c from h f = elim (Option-cases m.event) [
  | inl g ↦ inl (inl (sym (from m f) ∙ g))
  | inr (id, g) ↦ elim (Fails-cases d.tx) [
    | inl bad ↦ inr (m, f, refl, bad)
    | inr (x, y, z) ↦
        let (b, fine) = process_with_inbox-fine d.tx id c x y z in
        let there = (process_with_inbox-Remembered topic d.tx id c h).1 b fine in
        let same = (after_inbox-inbox d.commit m.offset (process_with_inbox d.tx id c)).0 in
        inl (inr (id, sym (from m f) ∙ g, rw (f, consume) (rw g (rw same there))))
  ]
]

-- What was done with stays so.
pub consume-keeps :
    (topic : ℕ → Option ℕ) (d : Delivery) (o : ℕ) (c : Consumer)
    → IsDone topic c.inbox o
    → IsDone topic (consume d c).inbox o
unfolding consume
consume-keeps topic d o c h = elim (Result-cases d.fetched) [
  | inl (e, f) ↦ rw (f, consume) h
  | inr (m, f) ↦ elim (Option-cases m.event) [
    | inl g ↦ rw (f, consume) (rw g (rw (commit_message-inbox d.commit m.offset c).0 h))
    | inr (id, g) ↦
        rw (f, consume)
          (rw g (
            rw (after_inbox-inbox d.commit m.offset (process_with_inbox d.tx id c)).0
              (process_with_inbox-keeps topic d.tx id o c h)))
  ]
]

pub consume-position :
    (d : Delivery) (next : ℕ) (c : Consumer)
    → position c.commits ≤ next
    → position (consume d c).commits ≤ reached d next
unfolding consume
consume-position d next c h = elim (Result-cases d.fetched) [
  | inl (e, f) ↦ rw (f, consume) h
  | inr (m, f) ↦ elim (Option-cases m.event) [
    | inl g ↦ rw (f, consume) (rw g (omega (arith, (commit_message-inbox d.commit m.offset c).1)))
    | inr (id, g) ↦
        let out = process_with_inbox d.tx id c in
        rw (f, consume)
          (rw g (
            omega (
              arith,
              (after_inbox-inbox d.commit m.offset out).1,
              ap position (process_with_inbox-commits d.tx id c),
            )))
  ]
]
