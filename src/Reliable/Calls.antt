-- ===== src/Reliable/Calls.antt =====
-- Everything that happens to deliveries, as calls in the order in which the event loop runs them.
use tyo_mq.Prelude.{ℕ, String, Bool, Option, List, [], ◌∷◌, ◌++◌}
use tyo_mq.Reliable.{
  Subscription, DurableEntry, Server, Effect, enqueue_and_deliver, replay, ack_timeout, retry, ack,
  disconnect, connect, subscribe,
}

pub data Call (P : Type 0) : Type 0 where
  send_call : Option String → DurableEntry P → ℕ → ℕ → Call P
  replay_call : List (DurableEntry P) → ℕ → ℕ → Call P
  timeout_call : String → Call P
  retry_call : ℕ → Call P
  ack_call : String → Option String → Bool → Call P
  disconnect_call : String → Call P
  connect_call : ℕ → String → Call P
  subscribe_call : ℕ → Subscription → Call P

module _ {P : Type 0} where
  unfoldable pub step : Server P → Call P → Server P × List (Effect P)
  step s (send_call id entry ref consumer) = enqueue_and_deliver s id entry ref consumer
  step s (replay_call entries ref consumer) = replay s entries ref consumer
  step s (timeout_call id) = ack_timeout s id
  step s (retry_call n) = retry s n
  step s (ack_call socket id stored) = let (s', out, reply) = ack s socket id stored in (s', out)
  step s (disconnect_call socket) = (disconnect s socket, [])
  step s (connect_call consumer socket) = (connect s consumer socket, [])
  step s (subscribe_call ref sub) = (subscribe s ref sub, [])

  unfoldable pub run : Server P → List (Call P) → Server P × List (Effect P)
  run s [] = (s, [])
  run s (c ∷ cs) = let (s', out) = step s c in let (s'', rest) = run s' cs in (s'', out ++ rest)
