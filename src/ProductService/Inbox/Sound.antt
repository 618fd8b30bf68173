-- ===== src/ProductService/Inbox/Sound.antt =====
-- The consumer of product-service/consumer.go over any deliveries.
use microservice_architectur.Base.{
  ℕ, ◌+◌, ◌<◌, ◌≤◌, ◌≡◌, Option, List, [], ◌∷◌, All, ltb, ok, arith, inl, inr, ◌⊎◌, Bool-cases,
  Result-cases, subst,
}
use microservice_architectur.ProductService.Inbox.{
  Consumer, Message, Delivery, consume, consume_all, position,
}
use microservice_architectur.ProductService.Inbox.Once.{
  IsOnce, lost, all_lost, consume-IsOnce, IsOnce-weaken,
}
use microservice_architectur.ProductService.Inbox.Accounted.{
  IsDone, Accounted, FromTopic, consume-Accounted,
}
use microservice_architectur.ProductService.Inbox.Passed.{
  FailedAt, FailedIn, reached, all_reached, InOrder, consume-this, consume-keeps, consume-position,
}

-- What holds of the consumer when the messages in front of `next` have been handed over and `n`
-- transactions were lost at their commit; `Failed` says of which messages a transaction has met a
-- failure of the database.
pub record IsSound (topic : ℕ → Option ℕ) (n next : ℕ) (Failed : ℕ → Type 0) (c : Consumer)
    : Type 0 where
  -- an event is in the inbox at most once; if it is there it was handled, and it was handled at most
  -- `n` times more than it is there
  pub once : IsOnce n c
  -- CommitMessages was called with messages only that cannot be read or whose event is in the inbox
  pub accounted : Accounted topic c
  -- the group's offset passes no message that was not handed over
  pub in_order : position c.commits ≤ next
  -- a message that was handed over cannot be read, or its event is in the inbox, or a transaction for
  -- it has met a failure
  pub passed : (o : ℕ) → o < next → IsDone topic c.inbox o ⊎ Failed o

consume-IsSound :
    (topic : ℕ → Option ℕ) (d : Delivery) (n next : ℕ) (Failed : ℕ → Type 0) (c : Consumer)
    → FromTopic topic d
    → ((m : Message) → d.fetched ≡ ok m → m.offset ≤ next)
    → IsSound topic n next Failed c
    → IsSound topic (lost d + n) (reached d next) (λ o. Failed o ⊎ FailedAt o d) (consume d c)
consume-IsSound topic d n next Failed c from order v = record {
  once = consume-IsOnce n d c v.once;
  accounted = consume-Accounted topic d c from v.accounted;
  in_order = consume-position d next c v.in_order;
  passed = λ o below. elim (Bool-cases (ltb o next)) [
    | inl before ↦ elim (v.passed o (ground arith)) [
      | inl done ↦ inl (consume-keeps topic d o c done)
      | inr failed ↦ inr (inl failed)
    ]
    | inr after ↦ elim (Result-cases d.fetched) [
      | inl (e, f) ↦ absurd (let below' = rw f at below in ground arith)
      | inr (m, f) ↦
          let le = order m f in
          let below' = rw f at below in
          let same : m.offset ≡ o = ground arith in
          elim (consume-this topic d m c from v.accounted f) [
            | inl done ↦ inl (subst (IsDone topic (consume d c).inbox) same done)
            | inr failed ↦ inr (inr (subst (λ k. FailedAt k d) same failed))
          ]
    ]
  ];
}

IsSound-weaken :
    (topic : ℕ → Option ℕ) (n m next : ℕ) (Failed More : ℕ → Type 0) (c : Consumer)
    → n ≤ m
    → ((o : ℕ) → Failed o → More o)
    → IsSound topic n next Failed c
    → IsSound topic m next More c
IsSound-weaken topic n m next Failed More c le more v = record {
  once = IsOnce-weaken n m c le v.once;
  accounted = v.accounted;
  in_order = v.in_order;
  passed =
      λ o below. elim (v.passed o below) [ inl done ↦ inl done | inr failed ↦ inr (more o failed) ];
}

-- The consumer keeps its inbox sound over any deliveries by a reader that skips no message, with any
-- repetitions, and with any failures of the reader and the database. An event is handled at most
-- once, and once more for each transaction that is lost at its commit. CommitMessages is called only
-- with a message that cannot be read or whose event was handled and is in the inbox. The group's
-- offset, which is behind the last message that was committed, can pass a message without that, but
-- only one for which the database has failed a statement or the commit: each message in front of the
-- group's offset cannot be read, or its event is in the inbox, or a transaction for it has failed.
pub consume_all-IsSound :
    (topic : ℕ → Option ℕ) (ds : List Delivery) (n next : ℕ) (Failed : ℕ → Type 0) (c : Consumer)
    → All (FromTopic topic) ds
    → InOrder next ds
    → IsSound topic n next Failed c
    → IsSound topic
        (all_lost ds + n)
        (all_reached ds next)
        (λ o. Failed o ⊎ FailedIn o ds)
        (consume_all ds c)
      × ((o : ℕ)
          → o < position (consume_all ds c).commits
          → IsDone topic (consume_all ds c).inbox o ⊎ (Failed o ⊎ FailedIn o ds))
unfolding consume_all
consume_all-IsSound topic [] n next Failed c from order v =
    let w =
      IsSound-weaken topic n (all_lost [] + n) next Failed (λ o. Failed o ⊎ ⊥) c (omega arith)
        (λ o h. inl h) v in
    (w, λ o below. w.passed o (omega (arith, below, w.in_order)))
consume_all-IsSound topic (d ∷ ds) n next Failed c from order v =
    let rest =
      consume_all-IsSound topic ds (lost d + n) (reached d next) (λ o. Failed o ⊎ FailedAt o d)
        (consume d c) from.1 order.1 (consume-IsSound topic d n next Failed c from.0 order.0 v) in
    let w =
      IsSound-weaken topic (all_lost ds + (lost d + n)) (all_lost (d ∷ ds) + n)
        (all_reached ds (reached d next)) (λ o. (Failed o ⊎ FailedAt o d) ⊎ FailedIn o ds)
        (λ o. Failed o ⊎ FailedIn o (d ∷ ds)) (consume_all ds (consume d c)) (omega arith)
        (λ o h. elim h [
          | inl (inl old) ↦ inl old
          | inl (inr now) ↦ inr (inl now)
          | inr later ↦ inr (inr later)
        ])
        rest.0 in
    (w, λ o below. w.passed o (omega (arith, below, w.in_order)))
