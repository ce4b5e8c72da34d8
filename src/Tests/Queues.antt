-- ===== src/Tests/Queues.antt =====
-- Concrete runs of lib/storage/memory.js.
use text.Mathlib.TextEquality.{eq_iff}
use tyo_mq.Prelude.{ℕ, ◌≡◌, refl, true, none, some, List, [], ◌∷◌, string_eq, arith, length, In}
use tyo_mq.MemoryStore.{
  MemoryStore, Message, Ttl, init, enqueue, dequeue, dead_letter, purge_realm, is_alive, alive,
  entry_of, expires_at,
}
use tyo_mq.MemoryStore.Delivery.{
  Call, dequeue_call, ack_call, count_call, purge_call, run, enqueue-dequeue,
}

abbrev hello : Message ℕ
hello = record {
  id = "m1";
  consumer = "";
  consumer_id = "bob";
  payload = some 7;
  message = none;
  producer = "alice";
  ttl = Ttl.seconds 1;
}

abbrev empty : MemoryStore ℕ
empty = init Ttl.absent Ttl.absent

abbrev one : MemoryStore ℕ
one = (enqueue empty "" "chat" hello "x" 10 10 10).0

delivered_until_expiry :
    (length (dequeue one "default" "chat" "bob" 1009).1 ≡ 1)
    × (length (dequeue one "default" "chat" "bob" 1010).1 ≡ 0)
    × (length (dequeue one "other" "chat" "bob" 20).1 ≡ 0)
    × ((dead_letter one "m1" "gone" 20).1 ≡ some "m1")
    × ((purge_realm one "default").1 ≡ 1)
unfolding enqueue dequeue dead_letter purge_realm init expires_at is_alive string_eq
delivered_until_expiry = (refl, refl, refl, refl, refl)

abbrev calls : List (Call ℕ)
calls =
    dequeue_call "" "chat" "bob" 20
    ∷ count_call "default" none none 30
    ∷ ack_call "m2"
    ∷ purge_call "other"
    ∷ []

alive_at_500 : alive 500 (entry_of empty "" "chat" hello "x" 10 10) ≡ true
unfolding is_alive init expires_at
alive_at_500 = refl

enqueue-dequeue_example :
    In
      (entry_of empty "" "chat" hello "x" 10 10)
      (dequeue (run one calls) "default" "chat" "bob" 500).1
unfolding string_eq
enqueue-dequeue_example =
    enqueue-dequeue empty "" "chat" hello "x" 10 10 10 500 calls alive_at_500 (
      omega arith,
      (
        omega arith,
        (ground (arith, eq_iff "m1" "m2"), (ground (arith, eq_iff "default" "other"), tt)),
      ),
    )
