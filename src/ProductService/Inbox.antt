-- ===== src/ProductService/Inbox.antt =====
-- product-service/consumer.go: the consumer of the topic of orders and its inbox.
--
-- The Kafka reader is not part of the repository: what it hands over is an argument, a list of
-- deliveries in any order and with any repetitions. What the loop gives back to it are the messages of
-- its calls of CommitMessages that went through. In Kafka a group has one offset for a partition: to
-- commit a message commits all that stand in front of it (`position`). The function that is run for an
-- event only logs; `handled` is that log.
pub mod Once
pub mod Accounted
pub mod Passed
pub mod Sound
use microservice_architectur.Base.{
  ℕ, Bool, true, false, Option, none, some, List, [], ◌∷◌, ◌==◌, any, if◌then◌else◌, Error, Result,
  ok, err, Io, ◌+◌,
}
use Prim.Native.Nat.{max}

-- What the consumer has: the inbox's event ids, the events that were handled, and the offsets of the
-- messages that CommitMessages was called with and went through.
pub record Consumer : Type 0 where
  pub inbox : List ℕ
  pub handled : List ℕ
  pub commits : List ℕ

-- The furthest that the group's offset in the partition has come: behind the last message committed.
abbrev pub position : List ℕ → ℕ
position [] = 0
position (offset ∷ offsets) = max (offset + 1) (position offsets)

-- A fetched message: its offset, and the order id in it if it can be read.
pub record Message : Type 0 where
  pub offset : ℕ
  pub event : Option ℕ

-- What happens to one round of the loop. `tx` fails the Begin, the INSERT and the commit (0, 1, 2).
pub record Delivery : Type 0 where
  pub fetched : Result Message
  pub tx : Io
  pub commit : Option Error

-- processWithInbox, behind the INSERT: `fresh` says that it has put a row in.
unfoldable pub finish_inbox : Bool → Option Error → ℕ → Consumer → Result Bool × Consumer
finish_inbox false none id c = (ok false, c)
finish_inbox false (some e) id c = (err e, c)
finish_inbox true none id c = (ok true, record c { handled = id ∷ c.handled; inbox = id ∷ c.inbox })
finish_inbox true (some e) id c = (err e, record c { handled = id ∷ c.handled })

-- INSERT INTO inbox ... ON CONFLICT DO NOTHING
abbrev pub is_fresh : ℕ → List ℕ → Bool
is_fresh id inbox = if any (λ i. i == id) inbox then false else true

-- processWithInbox; a commit that fails takes the row back, and not what the function did.
unfoldable pub process_with_inbox : Io → ℕ → Consumer → Result Bool × Consumer
unfolding finish_inbox
process_with_inbox tx id c = elim (tx 0) [
  | some e ↦ (err e, c)
  | none ↦ elim (tx 1) [
    | some e ↦ (err e, c)
    | none ↦ finish_inbox (is_fresh id c.inbox) (tx 2) id c
  ]
]

-- CommitMessages, whose error is only logged.
unfoldable pub commit_message : Option Error → ℕ → Consumer → Consumer
commit_message (some e) offset c = c
commit_message none offset c = record c { commits = offset ∷ c.commits }

-- The part of the loop behind the inbox.
unfoldable pub after_inbox : Option Error → ℕ → Result Bool × Consumer → Consumer
unfolding commit_message
after_inbox fault offset (err e, c) = c
after_inbox fault offset (ok processed, c) = commit_message fault offset c

-- One round of the loop.
unfoldable pub consume : Delivery → Consumer → Consumer
unfolding process_with_inbox after_inbox commit_message
consume d c = elim d.fetched [
  | err e ↦ c
  | ok m ↦ elim m.event [
    | none ↦ commit_message d.commit m.offset c
    | some id ↦ after_inbox d.commit m.offset (process_with_inbox d.tx id c)
  ]
]

unfoldable pub consume_all : List Delivery → Consumer → Consumer
unfolding consume
consume_all [] c = c
consume_all (d ∷ ds) c = consume_all ds (consume d c)
