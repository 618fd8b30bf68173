-- ===== src/Worker/Outbox/Conservation.antt =====
-- The number of events in the tables of order-service/internal/worker/outbox_relay.go.
use microservice_architectur.Base.{
  ℕ, ◌+◌, ◌≡◌, refl, ap, ◌∙◌, Bool, not, Option, none, some, List, [], ◌∷◌, ◌++◌, count, select,
  update, map, Error, Result, ok, err, Io, arith, inl, inr, transact, transact-cases,
}
use microservice_architectur.Worker.Outbox.{
  OutboxRow, DlqRow, Outbox, is_acknowledged, is_poison, Written, all_written, per_message,
  whole_failed, batch, mem, publish, count_retry, ids_where, is_exhausted, move_to_dlq,
  mark_entries, batch_body, process_batch, after_batch,
}

module _ {ℓ} {A : Type ℓ} where
  count-update :
      (q p : A → Bool) (f : A → A) (xs : List A)
      → ((x : A) → q (f x) ≡ q x)
      → count q (update p f xs) ≡ count q xs
  count-update q p f [] same = refl
  count-update q p f (x ∷ xs) same = ground (arith, same x, count-update q p f xs same)

  count-parts :
      (q p : A → Bool) (xs : List A)
      → count q (select p xs) + count q (select (λ x. not (p x)) xs) ≡ count q xs
  count-parts q p [] = refl
  count-parts q p (x ∷ xs) = ground (arith, count-parts q p xs)

-- Events with an aggregate and a payload for which `q` holds.
module _ (q : ℕ → ℕ → Bool) where
  abbrev is_row : OutboxRow → Bool
  is_row r = q r.aggregate_id r.payload

  abbrev is_dead : DlqRow → Bool
  is_dead d = q d.aggregate_id d.payload

  count-dlq :
      (xs : List OutboxRow) (ys : List DlqRow)
      → count is_dead (
          map (λ (r : OutboxRow). record { aggregate_id = r.aggregate_id; payload = r.payload }) xs
          ++ ys)
        ≡ count is_row xs + count is_dead ys
  count-dlq [] ys = omega arith
  count-dlq (x ∷ xs) ys = omega (arith, count-dlq xs ys)

  -- How many of them the outbox and the dead letter queue hold together.
  abbrev pub events : Outbox → ℕ
  events o = count is_row o.rows + count is_dead o.dlq

  move_to_dlq-events :
      (fault : Option Error) (ids : List ℕ) (o : Outbox)
      → events (move_to_dlq fault ids o) ≡ events o
  unfolding move_to_dlq
  move_to_dlq-events (some e) ids o = refl
  move_to_dlq-events none ids o = omega (
    arith,
    count-dlq (select (is_exhausted ids) o.rows) o.dlq,
    count-parts is_row (is_exhausted ids) o.rows,
  )

  publish-events : (now : ℕ) (ids : List ℕ) (o : Outbox) → events (publish now ids o) ≡ events o
  unfolding publish
  publish-events now ids o =
      ap (λ n. n + count is_dead o.dlq)
        (count-update is_row (λ r. mem r.id ids) (λ r. record r { published_at = some now }) o.rows
          (λ r. refl))

  count_retry-events : (ids : List ℕ) (o : Outbox) → events (count_retry ids o) ≡ events o
  unfolding count_retry
  count_retry-events ids o =
      ap (λ n. n + count is_dead o.dlq)
        (count-update is_row (λ r. mem r.id ids) (λ r. record r { retry_count = r.retry_count + 1 })
          o.rows (λ r. refl))

-- What a batch does to the table, if it does anything.
abbrev pub marked : ℕ → List ℕ × List ℕ → Outbox → Outbox
marked now ids o = count_retry ids.1 (publish now ids.0 o)

pub mark_entries-marked :
    (io : Io) (now : ℕ) (p f : List ℕ) (o o' : Outbox) (r : List ℕ × List ℕ)
    → mark_entries io now p f o ≡ ok (r, o')
    → (r ≡ (p, f)) × (o' ≡ marked now (p, f) o)
unfolding mark_entries
mark_entries-marked io now p f o o' r e = ground arith

module _ (q : ℕ → ℕ → Bool) where
  marked-events :
      (now : ℕ) (ids : List ℕ × List ℕ) (o : Outbox) → events q (marked now ids o) ≡ events q o
  marked-events now ids o =
      count_retry-events q ids.1 (publish now ids.0 o) ∙ publish-events q now ids.0 o

  batch_body-events :
      (io : Io) (locked : ℕ → Bool) (now : ℕ) (answer : Written) (o o' : Outbox)
      (r : List ℕ × List ℕ)
      → batch_body io locked now answer o ≡ ok (r, o')
      → events q o' ≡ events q o
  unfolding batch_body
  batch_body-events io locked now all_written o o' r e =
      ground (arith, publish-events q now (map (λ x. x.id) (batch locked o)) o)
  batch_body-events io locked now (per_message es) o o' r e =
      let p = ids_where is_acknowledged (batch locked o) es in
      let f = ids_where is_poison (batch locked o) es in
      ground (arith, mark_entries-marked io now p f o o' r, marked-events now (p, f) o)
  batch_body-events io locked now (whole_failed p) o o' r e =
      let ids = map (λ (x : OutboxRow). x.id) (batch locked o) in
      ground (arith, mark_entries-marked io now [] ids o o' r, marked-events now ([], ids) o)

  after_batch-events :
      (fault : Option Error) (r : Result (List ℕ × List ℕ)) (o : Outbox)
      → events q (after_batch fault r o).1 ≡ events q o
  unfolding after_batch
  after_batch-events fault (err e) o = refl
  after_batch-events fault (ok (p, [])) o = refl
  after_batch-events fault (ok (p, i ∷ is)) o = move_to_dlq-events q fault (i ∷ is) o

  -- A round of the relay loses no event, makes none and alters none: whatever fails and whatever Kafka
  -- answers, the outbox and the dead letter queue hold together as many events with any given property
  -- of their aggregate and payload as before; so they hold each event, by its aggregate and its
  -- payload, as often as before.
  pub process_batch-events :
      (io : Io) (locked : ℕ → Bool) (now : ℕ) (answer : Written) (o : Outbox)
      → events q (process_batch io locked now answer o).1 ≡ events q o
  unfolding process_batch
  process_batch-events io locked now answer o =
      let out = transact (io 0) (batch_body io locked now answer) o in
      after_batch-events (io 6) out.0 out.1
      ∙ elim (transact-cases (io 0) (batch_body io locked now answer) o) [
        | inl (e, failed) ↦ ap (λ r. events q r.1) failed
        | inr (r, o', body, done) ↦
            ap (λ r. events q r.1) done ∙ batch_body-events io locked now answer o o' r body
      ]
