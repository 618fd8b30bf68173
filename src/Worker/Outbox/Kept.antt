-- ===== src/Worker/Outbox/Kept.antt =====
-- Where an event of order-service/internal/worker/outbox_relay.go is after any turns of the relay.
use microservice_architectur.Base.{
  ℕ, ◌+◌, ◌-◌, ◌≡◌, subst, ◌⊎◌, inl, inr, Bool, true, false, Option, List, [], ◌∷◌, leb, map, any,
  ◌==◌, Error, Result, ok, err, Io, arith, Bool-cases, transact-cases,
}
use microservice_architectur.Worker.Outbox.{
  OutboxRow, Outbox, Entry, Written, all_written, per_message, whole_failed, is_acknowledged,
  is_poison, batch, mem, publish, ids_where, mark_entries, batch_body, after_batch, process_batch,
}
use microservice_architectur.Worker.Outbox.Conservation.{mark_entries-marked}
use microservice_architectur.Worker.Outbox.Loop.{
  Turn, Relay, clean_if_due, turn, turns, cleanup_interval, retention,
}
use microservice_architectur.Worker.Outbox.Waiting.{
  IsThere, move_to_dlq-IsThere, publish-IsThere, count_retry-IsThere, cleanup-IsThere,
}

-- An event: the id of its row, its aggregate and its payload.
module _ (id aggregate_id payload : ℕ) where
  mark_entries-IsThere :
      (io : Io) (now : ℕ) (p f : List ℕ) (o o' : Outbox) (r : List ℕ × List ℕ)
      → mark_entries io now p f o ≡ ok (r, o')
      → mem id r.0 ≡ false
      → IsThere id aggregate_id payload o
      → IsThere id aggregate_id payload o'
  mark_entries-IsThere io now p f o o' r e other h =
      let (same, is) = mark_entries-marked io now p f o o' r e in
      rw is (
        count_retry-IsThere id aggregate_id payload f (publish now p o) (
          publish-IsThere id aggregate_id payload now p o
            (subst (λ x. mem id x.0 ≡ false) same other) h))

  batch_body-IsThere :
      (io : Io) (locked : ℕ → Bool) (now : ℕ) (answer : Written) (o o' : Outbox)
      (r : List ℕ × List ℕ)
      → batch_body io locked now answer o ≡ ok (r, o')
      → mem id r.0 ≡ false
      → IsThere id aggregate_id payload o
      → IsThere id aggregate_id payload o'
  unfolding batch_body
  batch_body-IsThere io locked now all_written o o' r e other h =
      let ids = map (λ (x : OutboxRow). x.id) (batch locked o) in
      let what : (o ≡ o') ⊎ ((r.0 ≡ ids) × (publish now ids o ≡ o')) = ground arith in
      elim what [
        | inl same ↦ subst (IsThere id aggregate_id payload) same h
        | inr (same, is) ↦ subst (IsThere id aggregate_id payload) is (
            publish-IsThere id aggregate_id payload now ids o
              (subst (λ x. mem id x ≡ false) same other) h)
      ]
  batch_body-IsThere io locked now (per_message es) o o' r e other h =
      let p = ids_where is_acknowledged (batch locked o) es in
      let f = ids_where is_poison (batch locked o) es in
      let what : (o ≡ o') ⊎ (mark_entries io now p f o ≡ ok (r, o')) = ground arith in
      elim what [
        | inl same ↦ subst (IsThere id aggregate_id payload) same h
        | inr is ↦ mark_entries-IsThere io now p f o o' r is other h
      ]
  batch_body-IsThere io locked now (whole_failed q) o o' r e other h =
      let ids = map (λ (x : OutboxRow). x.id) (batch locked o) in
      let what : (o ≡ o') ⊎ (mark_entries io now [] ids o ≡ ok (r, o')) = ground arith in
      elim what [
        | inl same ↦ subst (IsThere id aggregate_id payload) same h
        | inr is ↦ mark_entries-IsThere io now [] ids o o' r is other h
      ]

  -- Of the messages of these rows, Kafka has acknowledged that of a row with this id: `es` are its
  -- entries, one for each message, in their order.
  abbrev AcknowledgedAt : List OutboxRow → List Entry → Type 0
  AcknowledgedAt [] es = ⊥
  AcknowledgedAt (r ∷ rs) [] = ⊥
  AcknowledgedAt (r ∷ rs) (Entry.acknowledged ∷ es) = ((r.id == id) ≡ true) ⊎ AcknowledgedAt rs es
  AcknowledgedAt (r ∷ rs) (Entry.poison ∷ es) = AcknowledgedAt rs es
  AcknowledgedAt (r ∷ rs) (Entry.temporary ∷ es) = AcknowledgedAt rs es

  -- The same of the answer of a whole write.
  abbrev pub Acknowledged : Written → List OutboxRow → Type 0
  Acknowledged all_written rows = any (λ (r : OutboxRow). r.id == id) rows ≡ true
  Acknowledged (per_message es) rows = AcknowledgedAt rows es
  Acknowledged (whole_failed q) rows = ⊥

  mem-map :
      (rows : List OutboxRow)
      → mem id (map (λ (r : OutboxRow). r.id) rows) ≡ true
      → any (λ (r : OutboxRow). r.id == id) rows ≡ true
  mem-map [] h = absurd (cc)
  mem-map (r ∷ rs) h = ground (arith, mem-map rs)

  ids_where-AcknowledgedAt :
      (rows : List OutboxRow) (es : List Entry)
      → mem id (ids_where is_acknowledged rows es) ≡ true
      → AcknowledgedAt rows es
  unfolding ids_where
  ids_where-AcknowledgedAt [] es h = absurd (cc)
  ids_where-AcknowledgedAt (r ∷ rs) [] h = absurd (cc)
  ids_where-AcknowledgedAt (r ∷ rs) (Entry.acknowledged ∷ es) h = elim (Bool-cases (r.id == id)) [
    | inl e ↦ inl e
    | inr e ↦ inr (ids_where-AcknowledgedAt rs es (ground arith))
  ]
  ids_where-AcknowledgedAt (r ∷ rs) (Entry.poison ∷ es) h = ids_where-AcknowledgedAt rs es h
  ids_where-AcknowledgedAt (r ∷ rs) (Entry.temporary ∷ es) h = ids_where-AcknowledgedAt rs es h

  batch_body-Acknowledged :
      (io : Io) (locked : ℕ → Bool) (now : ℕ) (answer : Written) (o o' : Outbox)
      (r : List ℕ × List ℕ)
      → batch_body io locked now answer o ≡ ok (r, o')
      → mem id r.0 ≡ true
      → Acknowledged answer (batch locked o)
  unfolding batch_body
  batch_body-Acknowledged io locked now all_written o o' r e there =
      let rows = batch locked o in
      let what : (r.0 ≡ []) ⊎ (r.0 ≡ map (λ (x : OutboxRow). x.id) rows) = ground arith in
      elim what [
        | inl none_published ↦ absurd (let no = rw none_published at there in cc)
        | inr same ↦ mem-map rows (subst (λ x. mem id x ≡ true) same there)
      ]
  batch_body-Acknowledged io locked now (per_message es) o o' r e there =
      let rows = batch locked o in
      let p = ids_where is_acknowledged rows es in
      let f = ids_where is_poison rows es in
      let what : (r.0 ≡ []) ⊎ (r.0 ≡ p) = ground (arith, mark_entries-marked io now p f o o' r) in
      elim what [
        | inl none_published ↦ absurd (let no = rw none_published at there in cc)
        | inr same ↦ ids_where-AcknowledgedAt rows es (subst (λ x. mem id x ≡ true) same there)
      ]
  batch_body-Acknowledged io locked now (whole_failed q) o o' r e there =
      let ids = map (λ (x : OutboxRow). x.id) (batch locked o) in
      let what : r.0 ≡ [] = ground (arith, mark_entries-marked io now [] ids o o' r) in
      absurd (let no = rw what at there in cc)

  after_batch-IsThere :
      (fault : Option Error) (r : Result (List ℕ × List ℕ)) (o : Outbox)
      → IsThere id aggregate_id payload o
      → IsThere id aggregate_id payload (after_batch fault r o).1
  unfolding after_batch
  after_batch-IsThere fault (err e) o h = h
  after_batch-IsThere fault (ok (p, [])) o h = h
  after_batch-IsThere fault (ok (p, i ∷ is)) o h =
      move_to_dlq-IsThere id aggregate_id payload fault (i ∷ is) o h

  process_batch-IsThere :
      (io : Io) (locked : ℕ → Bool) (now : ℕ) (answer : Written) (o : Outbox)
      → IsThere id aggregate_id payload o
      → IsThere id aggregate_id payload (process_batch io locked now answer o).1
        ⊎ Acknowledged answer (batch locked o)
  unfolding process_batch
  process_batch-IsThere io locked now answer o h =
      elim (transact-cases (io 0) (batch_body io locked now answer) o) [
        | inl (e, fails) ↦ inl (rw fails (after_batch-IsThere (io 6) (err e) o h))
        | inr ((p, f), o', body, done) ↦ elim (Bool-cases (mem id p)) [
          | inl there ↦ inr (batch_body-Acknowledged io locked now answer o o' (p, f) body there)
          | inr other ↦ inl (
              rw done (
                after_batch-IsThere (io 6) (ok (p, f)) o'
                  (batch_body-IsThere io locked now answer o o' (p, f) body other h)))
        ]
      ]

  -- In some turn Kafka has acknowledged the message.
  abbrev pub AcknowledgedIn : List Turn → Relay → Type 0
  AcknowledgedIn [] r = ⊥
  AcknowledgedIn (t ∷ ts) r =
      Acknowledged t.answer (batch t.locked r.outbox) ⊎ AcknowledgedIn ts (turn t r)

  clean_if_due-IsThere :
      (t : Turn) (r : Relay)
      → IsThere id aggregate_id payload r.outbox
      → IsThere id aggregate_id payload (clean_if_due t r).outbox
  unfolding clean_if_due
  clean_if_due-IsThere t r h = elim (Bool-cases (leb (r.last_cleanup + cleanup_interval) t.later)) [
    | inl e ↦
        rw e
          (cleanup-IsThere id aggregate_id payload 20 t.cleanup_io (t.later - retention) r.outbox h)
    | inr e ↦ rw e h
  ]

  -- The relay loses no event. Over any turns of its loop, with any answers of Kafka, any failures and
  -- any cleanups: an event that waits in the outbox or has a copy in the dead letter queue does so
  -- afterwards, unless in one of the turns a row with its id was among those that were handed to
  -- Kafka and Kafka has acknowledged the message of that row.
  pub turns-IsThere :
      (ts : List Turn) (r : Relay)
      → IsThere id aggregate_id payload r.outbox
      → IsThere id aggregate_id payload (turns ts r).outbox ⊎ AcknowledgedIn ts r
  unfolding turns turn
  turns-IsThere [] r h = inl h
  turns-IsThere (t ∷ ts) r h =
      elim (process_batch-IsThere t.io t.locked t.now t.answer r.outbox h) [
        | inr done ↦ inr (inl done)
        | inl there ↦ elim (turns-IsThere ts (turn t r) (clean_if_due-IsThere t _ there)) [
          | inl stays ↦ inl stays
          | inr later ↦ inr (inr later)
        ]
      ]
