-- ===== src/Worker/Outbox/Waiting.antt =====
-- An event in the tables of order-service/internal/worker/outbox_relay.go under each statement.
use microservice_architectur.Base.{
  ℕ, zero, suc, ◌+◌, ◌≡◌, sym, subst, ◌⊎◌, inl, inr, Bool, true, false, not, ◌&&◌, Option, none,
  some, List, [], ◌∷◌, ◌++◌, ◌==◌, ltb, length, select, update, any, map, Error, Io, arith, ==_iff,
  Bool-cases, Option-cases,
}
use microservice_architectur.Worker.Outbox.{
  OutboxRow, DlqRow, Outbox, is_open, mem, publish, count_retry, is_exhausted, move_to_dlq, is_old,
  delete_first, cleanup, cleanup_batch,
}

-- An event: the id of its row, its aggregate and its payload.
module _ (id aggregate_id payload : ℕ) where
  abbrev pub is_waiting : OutboxRow → Bool
  is_waiting r =
      r.id == id && (r.aggregate_id == aggregate_id && (r.payload == payload && is_open r))

  abbrev pub is_copy : DlqRow → Bool
  is_copy d = d.aggregate_id == aggregate_id && d.payload == payload

  -- It waits in the outbox, or it is in the dead letter queue.
  abbrev pub IsThere : Outbox → Type 0
  IsThere o = (any is_waiting o.rows ≡ true) ⊎ (any is_copy o.dlq ≡ true)

  publish-any :
      (now : ℕ) (ids : List ℕ) (rs : List OutboxRow)
      → mem id ids ≡ false
      → any is_waiting rs ≡ true
      → any is_waiting (update (λ r. mem r.id ids) (λ r. record r { published_at = some now }) rs)
        ≡ true
  publish-any now ids [] other h = h
  publish-any now ids (r ∷ rs) other h = elim (Bool-cases (r.id == id)) [
    | inl same ↦
        let unmarked : mem r.id ids ≡ false =
          subst (λ k. mem k ids ≡ false) (sym ((==_iff r.id id).0 same)) other in
        rw unmarked (ground (arith, publish-any now ids rs other))
    | inr another ↦
        let rest : any is_waiting rs ≡ true = ground arith in
        ground (arith, publish-any now ids rs other rest)
  ]

  retry-any :
      (ids : List ℕ) (rs : List OutboxRow)
      → any is_waiting rs ≡ true
      → any is_waiting
          (update (λ r. mem r.id ids) (λ r. record r { retry_count = r.retry_count + 1 }) rs)
        ≡ true
  retry-any ids [] h = h
  retry-any ids (r ∷ rs) h = ground (arith, retry-any ids rs)

  moved-any :
      (ids : List ℕ) (rs : List OutboxRow) (ds : List DlqRow)
      → any is_waiting rs ≡ true
      → (any is_waiting (select (λ r. not (is_exhausted ids r)) rs) ≡ true)
        ⊎ (any is_copy (
              map
                (λ (r : OutboxRow). record { aggregate_id = r.aggregate_id; payload = r.payload })
                (select (is_exhausted ids) rs)
              ++ ds)
            ≡ true)
  moved-any ids [] ds h = absurd (cc)
  moved-any ids (r ∷ rs) ds h = elim (Bool-cases (is_exhausted ids r)) [
    | inl e ↦ rw e (elim (Bool-cases (is_waiting r)) [
      | inl mine ↦ inr (ground arith)
      | inr other ↦ elim (moved-any ids rs ds (ground arith)) [
        | inl stays ↦ inl stays
        | inr copied ↦ inr (ground (arith, copied))
      ]
    ])
    | inr e ↦ rw e (elim (Bool-cases (is_waiting r)) [
      | inl mine ↦ inl (ground arith)
      | inr other ↦ elim (moved-any ids rs ds (ground arith)) [
        | inl stays ↦ inl (ground (arith, stays))
        | inr copied ↦ inr copied
      ]
    ])
  ]

  copied-any : (cs ds : List DlqRow) → any is_copy ds ≡ true → any is_copy (cs ++ ds) ≡ true
  copied-any [] ds h = h
  copied-any (c ∷ cs) ds h = ground (arith, copied-any cs ds h)

  delete_first-any :
      (cutoff n : ℕ) (rs : List OutboxRow)
      → any is_waiting rs ≡ true
      → any is_waiting (delete_first (is_old cutoff) n rs) ≡ true
  unfolding delete_first
  delete_first-any cutoff n [] h = h
  delete_first-any cutoff zero (r ∷ rs) h = h
  delete_first-any cutoff (suc n) (r ∷ rs) h =
      ground (arith, delete_first-any cutoff n rs, delete_first-any cutoff (suc n) rs)

  pub move_to_dlq-IsThere :
      (fault : Option Error) (ids : List ℕ) (o : Outbox)
      → IsThere o
      → IsThere (move_to_dlq fault ids o)
  unfolding move_to_dlq
  move_to_dlq-IsThere (some e) ids o h = h
  move_to_dlq-IsThere none ids o (inl waits) = moved-any ids o.rows o.dlq waits
  move_to_dlq-IsThere none ids o (inr copied) = inr (copied-any _ o.dlq copied)

  pub publish-IsThere :
      (now : ℕ) (ids : List ℕ) (o : Outbox)
      → mem id ids ≡ false
      → IsThere o
      → IsThere (publish now ids o)
  unfolding publish
  publish-IsThere now ids o other (inl waits) = inl (publish-any now ids o.rows other waits)
  publish-IsThere now ids o other (inr copied) = inr copied

  pub count_retry-IsThere : (ids : List ℕ) (o : Outbox) → IsThere o → IsThere (count_retry ids o)
  unfolding count_retry
  count_retry-IsThere ids o (inl waits) = inl (retry-any ids o.rows waits)
  count_retry-IsThere ids o (inr copied) = inr copied

  rows_kept :
      (cutoff : ℕ) (o : Outbox)
      → IsThere o
      → IsThere (record o { rows = delete_first (is_old cutoff) cleanup_batch o.rows })
  rows_kept cutoff o (inl waits) = inl (delete_first-any cutoff cleanup_batch o.rows waits)
  rows_kept cutoff o (inr copied) = inr copied

  pub cleanup-IsThere :
      (left : ℕ) (faults : Io) (cutoff : ℕ) (o : Outbox)
      → IsThere o
      → IsThere (cleanup left faults cutoff o)
  unfolding cleanup
  cleanup-IsThere zero faults cutoff o h = h
  cleanup-IsThere (suc left) faults cutoff o h =
      let rest = delete_first (is_old cutoff) cleanup_batch o.rows in
      let kept = rows_kept cutoff o h in
      let more = cleanup-IsThere left faults cutoff (record o { rows = rest }) kept in
      elim (Option-cases (faults left)) [
        | inr (e, fails) ↦ rw (fails, cleanup) h
        | inl fine ↦
            rw (fine, cleanup)
              (elim (Bool-cases (ltb (length o.rows) (length rest + cleanup_batch))) [
                | inl e ↦ rw e kept
                | inr e ↦ rw e more
              ])
      ]
