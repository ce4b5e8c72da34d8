-- ===== src/Tests/Inbox.antt =====
-- An inbox of three messages, drained two at a time.
use tyo_mq.Prelude.{
  ◌≡◌, refl, true, false, some, List, [], ◌∷◌, codes_eq, nat_eq, arith, String, if◌then◌else◌, ◌==◌,
}
use tyo_mq.Prelude.Text.{codes}
use tyo_mq.SealedInbox.{
  Entry, Socket, failed, drained, started, Outcome, lost, confirmed, refused, refusal, begin,
  settle, settle_all, drain_acked, finish, drain,
}
use tyo_mq.SealedInbox.Drain.{ask_while_more, ask_while_more-drains}

abbrev entry : String → Entry
entry s = record { id = codes s; message = codes s }

abbrev inbox : List Entry
inbox = entry "a" ∷ entry "b" ∷ entry "c" ∷ []

abbrev socket : Socket
socket = record { identities = codes "ann" ∷ []; sealed_ack_capable = false; sealed_draining = [] }

abbrev answers : Entry → Outcome
answers e = if e.id == codes "a" then confirmed else if e.id == codes "b" then refused else lost

of_others :
    refusal true true socket (some (record { identity = codes "bob"; ack = true })) ≡ some 403
unfolding refusal codes_eq
of_others = refl

one_drain_at_a_time :
    ((begin socket (codes "ann")).1 ≡ started)
    × ((begin (begin socket (codes "ann")).0 (codes "ann")).1 ≡ failed 409)
    × ((begin (finish (begin socket (codes "ann")).0 (codes "ann")) (codes "ann")).1 ≡ started)
unfolding begin finish codes_eq
one_drain_at_a_time = (refl, refl, refl)

one_of_each : (drain_acked 5 answers inbox).1 ≡ drained 1 1 1 true
unfolding drain_acked settle_all settle codes_eq
one_of_each = refl

two_at_a_time : (drain 2 inbox).2 ≡ drained 2 0 0 true
unfolding drain
two_at_a_time = refl

ask_while_more-drains_example :
    ask_while_more 4 2 inbox ≡ some (codes "a" ∷ codes "b" ∷ codes "c" ∷ [], [])
unfolding codes_eq
ask_while_more-drains_example =
    ask_while_more-drains 4 2 inbox (ground arith) (refl, (refl, (refl, tt))) (ground arith)
