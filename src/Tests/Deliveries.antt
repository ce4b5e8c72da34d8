-- ===== src/Tests/Deliveries.antt =====
-- Concrete runs of acknowledged delivery.
use text.Mathlib.TextEquality.{eq_iff}
use tyo_mq.Prelude.{
  ℕ, ◌≡◌, refl, true, none, some, List, [], ◌∷◌, ◌==◌, string_eq, nat_eq, arith, AllTrue, not,
}
use tyo_mq.Prelude.Dict
use tyo_mq.Prelude.Dict.{NodupKeys}
use tyo_mq.Reliable.{
  Subscription, Backoff, DurableEntry, Server, Retry, consume, dead_letter, ack_ok, init, deliver,
  enqueue_and_deliver, ack_timeout, retry, replay, ack, connect, subscribe, normalize_retry_policy,
  retry_of, pending_of, socket_of,
}
use tyo_mq.Reliable.Calls.{
  Call, send_call, replay_call, timeout_call, retry_call, disconnect_call, connect_call,
  subscribe_call, step, run,
}
use tyo_mq.Reliable.Attempts.{IsReachable, rounds, unanswered_run, resends, send-unanswered}
use tyo_mq.Reliable.Limit.{within, run-within}
use tyo_mq.Reliable.Acked.{silent, mentions, SendsOthers, ack_final}
use tyo_mq.Reliable.Late.{retry-ack}

abbrev settings : Subscription
settings = record {
  consumer_id = "bob";
  ack_required = true;
  ack_timeout_ms = 0;
  retry_max_attempts = 2;
  max_attempts = 0;
  delay_ms = 5000;
  backoff = Backoff.exponential;
}

abbrev order : DurableEntry ℕ
order = record { id = "m1"; realm = "default"; event = "order"; message = 7; producer = "alice" }

-- Subscription 0 and consumer 0 are bob's; the socket "s1" is his.
abbrev joined : List (Call ℕ)
joined = connect_call 0 "s1" ∷ subscribe_call 0 settings ∷ []

abbrev ready : Server ℕ
ready = (run init joined).0

ready-IsReachable : IsReachable order 0 0 settings "s1" ready
unfolding run step init connect subscribe Dict.insert Dict.lookup nat_eq
ready-IsReachable = (refl, refl)

ready-NodupKeys : NodupKeys ready.pending
unfolding run step init connect subscribe
ready-NodupKeys = tt

sent_twice_then_dead :
    (run ready (
      send_call (some "m1") order 0 0
      ∷ timeout_call "m1"
      ∷ retry_call 0
      ∷ timeout_call "m1"
      ∷ [])).1
    ≡ consume "s1" order 1 ∷ consume "s1" order 2 ∷ dead_letter "default" "m1" 2 ∷ []
unfolding run step init connect subscribe enqueue_and_deliver deliver ack_timeout retry Dict.insert
    Dict.lookup Dict.erase nat_eq string_eq normalize_retry_policy retry_of pending_of
sent_twice_then_dead = refl

send-unanswered_example :
    ((unanswered_run order 0 0 settings "s1" ready).1
      ≡ consume "s1" order 1 ∷ resends order 0 0 settings "s1" (rounds order 0 0 settings "s1") 1)
    × (Dict.lookup "m1" (unanswered_run order 0 0 settings "s1" ready).0.pending ≡ none)
    × ((unanswered_run order 0 0 settings "s1" ready).0.retries ≡ ready.retries)
send-unanswered_example =
    send-unanswered order 0 0 settings "s1" ready ready-IsReachable ready-NodupKeys

abbrev busy : List (Call ℕ)
busy =
    connect_call 0 "s1"
    ∷ subscribe_call 0 settings
    ∷ send_call (some "m1") order 0 0
    ∷ timeout_call "m1"
    ∷ replay_call (order ∷ []) 0 0
    ∷ []

run-within_example : AllTrue (within 2) (run init busy).1
unfolding normalize_retry_policy
run-within_example = run-within 2 busy (omega arith) (omega arith, tt)

-- After a timeout and a replay the first retry waits while the second delivery is pending.
abbrev replayed : Server ℕ
replayed = (run init busy).0

abbrev waiting : Retry ℕ
waiting = record { entry = order; subscription = 0; consumer = 0; attempt = 1; delay_ms = 5000 }

replayed-accepts : (ack replayed "s1" (some "m1") true).2 ≡ ack_ok "m1"
unfolding run step init connect subscribe enqueue_and_deliver deliver ack_timeout replay ack
    Dict.insert Dict.lookup Dict.erase nat_eq string_eq normalize_retry_policy retry_of pending_of
replayed-accepts = refl

replayed-retries : replayed.retries ≡ waiting ∷ []
unfolding run step init connect subscribe enqueue_and_deliver deliver ack_timeout replay Dict.insert
    Dict.lookup Dict.erase nat_eq string_eq normalize_retry_policy retry_of pending_of
replayed-retries = refl

replayed-known :
    (Dict.lookup 0 replayed.subscriptions ≡ some settings)
    × (Dict.lookup 0 replayed.consumers ≡ some (some "s1"))
unfolding run step init connect subscribe enqueue_and_deliver deliver ack_timeout replay Dict.insert
    Dict.lookup Dict.erase nat_eq string_eq normalize_retry_policy retry_of pending_of
replayed-known = (refl, refl)

replayed-connected : socket_of (Dict.lookup 0 replayed.consumers) ≡ some "s1"
replayed-connected = rw replayed-known.1 refl

retry-ack_example :
    ((run (ack replayed "s1" (some "m1") true).0 (retry_call 0 ∷ [])).1 ≡ consume "s1" order 2 ∷ [])
    × (mentions "m1" (consume "s1" order 2) ≡ true)
retry-ack_example =
    retry-ack replayed [] waiting settings "s1" "s1" true replayed-accepts replayed-retries
      replayed-known.0 replayed-connected

abbrev before : List (Call ℕ)
before = connect_call 0 "s1" ∷ subscribe_call 0 settings ∷ send_call (some "m1") order 0 0 ∷ []

abbrev after : List (Call ℕ)
after =
    timeout_call "m1"
    ∷ retry_call 0
    ∷ disconnect_call "s1"
    ∷ connect_call 0 "s2"
    ∷ send_call (some "m2") order 0 0
    ∷ replay_call [] 0 0
    ∷ []

before-retries : (run init before).0.retries ≡ []
unfolding run step init connect subscribe enqueue_and_deliver deliver Dict.insert Dict.lookup nat_eq
    string_eq normalize_retry_policy pending_of
before-retries = refl

before-accepts : (ack (run init before).0 "s1" (some "m1") true).2 ≡ ack_ok "m1"
unfolding run step init connect subscribe enqueue_and_deliver deliver ack Dict.insert Dict.lookup
    Dict.erase nat_eq string_eq normalize_retry_policy pending_of
before-accepts = refl

after-others : SendsOthers "m1" after
after-others = (ground (arith, eq_iff "m2" "m1"), (tt, tt))

before-waiting : AllTrue (λ (r : Retry ℕ). not (r.entry.id == "m1")) (run init before).0.retries
before-waiting = rw before-retries tt

ack_final_example :
    AllTrue (silent "m1") (run (ack (run init before).0 "s1" (some "m1") true).0 after).1
ack_final_example = ack_final "m1" before after "s1" true before-waiting before-accepts after-others
