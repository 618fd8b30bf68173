-- ===== src/Worker/Outbox.antt =====
-- order-service/internal/worker/outbox_relay.go: the relay from the outbox to Kafka.
--
-- The table is the list of its rows, the oldest first, so ORDER BY id is its order. `locked` names
-- the rows that another relay holds (SKIP LOCKED). What Kafka answers is an argument; of an error the
-- code reads whether it is poison (`isPoison`) and whether it lists one entry for each message.
pub mod Conservation
pub mod Loop
pub mod Waiting
pub mod Kept
use microservice_architectur.Base.{
  ℕ, zero, suc, ◌+◌, Bool, true, false, not, ◌&&◌, Option, none, some, List, [], ◌∷◌, ◌++◌, ◌==◌,
  ltb, leb, if◌then◌else◌, length, take, select, update, any, map, Error, Result, ok, err, ◌>>=◌,
  ◌>>◌, Io, attempt, transact,
}

abbrev pub max_retries : ℕ
max_retries = 5

abbrev pub batch_size : ℕ
batch_size = 100

pub record OutboxRow : Type 0 where
  pub id : ℕ
  pub aggregate_id : ℕ
  pub payload : ℕ
  pub published_at : Option ℕ
  pub retry_count : ℕ

pub record DlqRow : Type 0 where
  pub aggregate_id : ℕ
  pub payload : ℕ

pub record Outbox : Type 0 where
  pub rows : List OutboxRow
  pub dlq : List DlqRow

-- An entry of kafka's WriteErrors: nil, a permanent error, a temporary one.
pub data Entry : Type 0 where
  acknowledged poison temporary : Entry

-- The result of WriteMessages.
pub data Written : Type 0 where
  all_written : Written
  per_message : List Entry → Written
  whole_failed : Bool → Written

abbrev pub is_open : OutboxRow → Bool
is_open r = elim r.published_at [ none ↦ true | some t ↦ false ]

abbrev pub is_due : (ℕ → Bool) → OutboxRow → Bool
is_due locked r = is_open r && ltb r.retry_count max_retries && not (locked r.id)

-- SELECT ... WHERE published_at IS NULL AND retry_count < 5 ORDER BY id LIMIT 100
unfoldable pub batch : (ℕ → Bool) → Outbox → List OutboxRow
batch locked o = take batch_size (select (is_due locked) o.rows)

abbrev pub mem : ℕ → List ℕ → Bool
mem k ids = any (λ i. i == k) ids

-- UPDATE outbox SET published_at = NOW() WHERE id = ANY($1)
unfoldable pub publish : ℕ → List ℕ → Outbox → Outbox
publish now ids o = record o {
  rows = update (λ r. mem r.id ids) (λ r. record r { published_at = some now }) o.rows;
}

-- UPDATE outbox SET retry_count = retry_count + 1 ... WHERE id = ANY($1)
unfoldable pub count_retry : List ℕ → Outbox → Outbox
count_retry ids o = record o {
  rows = update (λ r. mem r.id ids) (λ r. record r { retry_count = r.retry_count + 1 }) o.rows;
}

-- The loop over `perMsg`: the ids whose entry is of a kind.
abbrev pub is_acknowledged : Entry → Bool
is_acknowledged acknowledged = true
is_acknowledged _ = false

abbrev pub is_poison : Entry → Bool
is_poison poison = true
is_poison _ = false

unfoldable pub ids_where : (Entry → Bool) → List OutboxRow → List Entry → List ℕ
ids_where p [] es = []
ids_where p (r ∷ rs) [] = []
ids_where p (r ∷ rs) (e ∷ es) = let rest = ids_where p rs es in if p e then r.id ∷ rest else rest

abbrev pub is_exhausted : List ℕ → OutboxRow → Bool
is_exhausted ids r = mem r.id ids && leb max_retries r.retry_count

-- moveToDLQ; its error is only logged.
unfoldable pub move_to_dlq : Option Error → List ℕ → Outbox → Outbox
move_to_dlq (some e) ids o = o
move_to_dlq none ids o = record o {
  rows = select (λ r. not (is_exhausted ids r)) o.rows;
  dlq =
      map (λ (r : OutboxRow). record { aggregate_id = r.aggregate_id; payload = r.payload })
        (select (is_exhausted ids) o.rows)
      ++ o.dlq;
}

abbrev pub is_nil {ℓ} : {A : Type ℓ} → List A → Bool
is_nil [] = true
is_nil (x ∷ xs) = false

abbrev pub kafka_unavailable : Error
kafka_unavailable = Error.opaque 2

-- The statement is made only if there is something to mark.
abbrev pub unless_nil : List ℕ → Option Error → Result (Unit {0})
unless_nil [] fault = ok tt
unless_nil (i ∷ is) fault = attempt fault

-- The transaction behind an answer that lists the messages: the ids published and those failed.
unfoldable pub mark_entries :
    Io → ℕ → List ℕ → List ℕ → Outbox → Result ((List ℕ × List ℕ) × Outbox)
unfolding publish count_retry
mark_entries io now published failed o =
    if is_nil published && is_nil failed
    then err kafka_unavailable
    else unless_nil published (io 3)
      >> (unless_nil failed (io 4)
          >> (attempt (io 5)
              >> ok ((published, failed), count_retry failed (publish now published o))))

-- The transaction of processBatch, its commit included.
unfoldable pub batch_body :
    Io → (ℕ → Bool) → ℕ → Written → Outbox → Result ((List ℕ × List ℕ) × Outbox)
unfolding batch publish mark_entries ids_where
batch_body io locked now all_written o =
    let ids = map (λ (r : OutboxRow). r.id) (batch locked o) in
    attempt (io 1)
    >> (if is_nil ids
        then ok (([], []), o)
        else attempt (io 3) >> (attempt (io 5) >> ok ((ids, []), publish now ids o)))
batch_body io locked now (per_message es) o =
    let rows = batch locked o in
    attempt (io 1)
    >> (if is_nil rows
        then ok (([], []), o)
        else mark_entries io now (ids_where is_acknowledged rows es) (ids_where is_poison rows es)
            o)
batch_body io locked now (whole_failed p) o =
    let ids = map (λ (r : OutboxRow). r.id) (batch locked o) in
    attempt (io 1)
    >> (if is_nil ids
        then ok (([], []), o)
        else if p && length ids == 1
        then mark_entries io now [] ids o
        else err kafka_unavailable)

-- The move behind the commit, if there are failed ids.
unfoldable pub after_batch :
    Option Error → Result (List ℕ × List ℕ) → Outbox → Result (List ℕ × List ℕ) × Outbox
unfolding move_to_dlq
after_batch fault (err e) o = (err e, o)
after_batch fault (ok (published, [])) o = (ok (published, []), o)
after_batch fault (ok (published, i ∷ is)) o =
    (ok (published, i ∷ is), move_to_dlq fault (i ∷ is) o)

-- processBatch: the ids published and failed, and the outbox behind it. The number that the code
-- returns is that of the published ids; where some message failed, it returns Kafka's own error, the
-- argument `answer`, beside it.
unfoldable pub process_batch :
    Io → (ℕ → Bool) → ℕ → Written → Outbox → Result (List ℕ × List ℕ) × Outbox
unfolding batch_body after_batch
process_batch io locked now answer o =
    let (r, o') = transact (io 0) (batch_body io locked now answer) o in after_batch (io 6) r o'

abbrev pub cleanup_batch : ℕ
cleanup_batch = 5000

abbrev pub is_old : ℕ → OutboxRow → Bool
is_old cutoff r = elim r.published_at [ none ↦ false | some t ↦ ltb t cutoff ]

-- DELETE of the oldest `n` rows for which `p` holds.
unfoldable pub delete_first : (OutboxRow → Bool) → ℕ → List OutboxRow → List OutboxRow
delete_first p n [] = []
delete_first p zero (r ∷ rs) = r ∷ rs
delete_first p (suc n) (r ∷ rs) = elim (p r) [
  | true ↦ delete_first p n rs
  | false ↦ r ∷ delete_first p (suc n) rs
]

-- The loop of `cleanup`, with `left` of its 20 rounds left; round `left` fails if `faults` says so.
unfoldable pub cleanup : ℕ → Io → ℕ → Outbox → Outbox
unfolding delete_first
cleanup zero faults cutoff o = o
cleanup (suc left) faults cutoff o =
    let rest = delete_first (is_old cutoff) cleanup_batch o.rows in
    let more = cleanup left faults cutoff (record o { rows = rest }) in
    elim (faults left) [
      | some e ↦ o
      | none ↦
          if ltb (length o.rows) (length rest + cleanup_batch)
          then record o { rows = rest }
          else more
    ]
