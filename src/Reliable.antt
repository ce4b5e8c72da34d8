-- ===== src/Reliable.antt =====
-- Acknowledged delivery in lib/server.js: the table `pendingAcks`, the timers and retries behind it, the
-- handler ACK, the replay of queued messages and what a disconnect does to both.
-- Consumers and subscriptions are objects that the code shares and changes in place: they are named by
-- references. A timer is what its closure holds; a cleared
-- timer is one that no longer stands in the state. `P` is the type of payloads. Log lines and metrics are
-- left out, and a delay is the number of milliseconds that `parseDurationMs` makes of it.
pub mod Calls
pub mod Attempts
pub mod Rules
pub mod Invariant
pub mod Limit
pub mod Keys
pub mod Acked
pub mod Late
use tyo_mq.Prelude.{
  ℕ, zero, suc, ◌+◌, ◌-◌, ◌*◌, ◌^◌, max, String, Bool, true, false, Option, none, some, List, [],
  ◌∷◌, ◌++◌, leb, not, if◌then◌else◌, ◌==◌, string_eq, nat_eq,
}
use tyo_mq.Prelude.Dict
use tyo_mq.Prelude.Dict.{Dict}

pub data Backoff : Type 0 where
  fixed exponential : Backoff

-- The settings of a subscription that deliveries read: 0 is a missing number, as it is for `||`, and the two
-- spellings of a setting (`max_attempts` and `maxAttempts`) are one field.
pub record Subscription : Type 0 where
  pub consumer_id : String
  pub ack_required : Bool
  pub ack_timeout_ms : ℕ
  pub retry_max_attempts : ℕ
  pub max_attempts : ℕ
  pub delay_ms : ℕ
  pub backoff : Backoff

pub record Policy : Type 0 where
  pub max_attempts : ℕ
  pub delay_ms : ℕ
  pub backoff : Backoff

pub record DurableEntry (P : Type 0) : Type 0 where
  pub id : String
  pub realm : String
  pub event : String
  pub message : P
  pub producer : String

-- An entry of `pendingAcks`, with its timer.
pub record Pending (P : Type 0) : Type 0 where
  pub socket : String
  pub consumer_id : String
  pub attempt : ℕ
  pub entry : DurableEntry P
  pub subscription : ℕ
  pub consumer : ℕ
  pub policy : Policy
  pub timeout_ms : ℕ

-- A timer that waits for the delay of a retry.
pub record Retry (P : Type 0) : Type 0 where
  pub entry : DurableEntry P
  pub subscription : ℕ
  pub consumer : ℕ
  pub attempt : ℕ
  pub delay_ms : ℕ

pub record Server (P : Type 0) : Type 0 where
  pub consumers : Dict ℕ (Option String)
  pub subscriptions : Dict ℕ Subscription
  pub pending : Dict String (Pending P)
  pub retries : List (Retry P)

-- What a step tells the sockets and the store.
pub data Effect (P : Type 0) : Type 0 where
  consume : String → DurableEntry P → ℕ → Effect P
  consume_plain : String → DurableEntry P → Effect P
  dead_letter : String → String → ℕ → Effect P
  store_ack : String → Effect P

pub data Reply : Type 0 where
  ack_ok : String → Reply
  ack_fail : ℕ → Reply

-- `n || fallback`
abbrev or_number : ℕ → ℕ → ℕ
or_number n fallback = if leb n 0 then fallback else n

-- `normalizeRetryPolicy(subscription)`
unfoldable pub normalize_retry_policy : Subscription → Policy
normalize_retry_policy sub = record {
  max_attempts = max 1 (or_number (or_number sub.retry_max_attempts sub.max_attempts) 3);
  delay_ms = sub.delay_ms;
  backoff = sub.backoff;
}

-- `retryDelayMs(policy, attempt)`
retry_delay_by : Backoff → ℕ → ℕ → ℕ
retry_delay_by fixed delay attempt = delay
retry_delay_by exponential delay attempt = delay * 2 ^ (attempt - 1)

retry_delay_ms : Policy → ℕ → ℕ
unfolding retry_delay_by
retry_delay_ms policy attempt = retry_delay_by policy.backoff policy.delay_ms attempt

abbrev holds : String → Option String → Bool
holds socket none = false
holds socket (some held) = held == socket

-- The first consumer with the socket goes offline; the loop stops there.
go_offline : String → Dict ℕ (Option String) → Dict ℕ (Option String)
go_offline socket [] = []
go_offline socket ((ref, held) ∷ rest) =
    if holds socket held then (ref, none) ∷ rest else (ref, held) ∷ go_offline socket rest

-- `consumerMeta.socket`
abbrev pub socket_of : Option (Option String) → Option String
socket_of none = none
socket_of (some socket) = socket

module _ {P : Type 0} where
  unfoldable pub init : Server P
  init = record { consumers = []; subscriptions = []; pending = []; retries = [] }

  unfoldable pub pending_of : DurableEntry P → ℕ → Subscription → ℕ → String → ℕ → Pending P
  pending_of entry ref sub consumer socket attempt = record {
    socket = socket;
    consumer_id = sub.consumer_id;
    attempt = attempt;
    entry = entry;
    subscription = ref;
    consumer = consumer;
    policy = normalize_retry_policy sub;
    timeout_ms = or_number sub.ack_timeout_ms (30 * 1000);
  }

  deliver_to :
      Server P
      → DurableEntry P
      → ℕ
      → ℕ
      → ℕ
      → Option Subscription
      → Option String
      → Server P × List (Effect P)
  unfolding pending_of
  deliver_to s entry ref consumer attempt none socket = (s, [])
  deliver_to s entry ref consumer attempt (some sub) none = (s, [])
  deliver_to s entry ref consumer attempt (some sub) (some socket) = (
    record s {
      pending = Dict.insert entry.id (pending_of entry ref sub consumer socket attempt) s.pending;
    },
    consume socket entry attempt ∷ [],
  )

  -- `deliverDurableEntry(entry, subscription, consumerMeta, attempt)`; the new timer replaces the old one.
  unfoldable pub deliver : Server P → DurableEntry P → ℕ → ℕ → ℕ → Server P × List (Effect P)
  unfolding deliver_to
  deliver s entry ref consumer attempt =
      deliver_to s entry ref consumer attempt (Dict.lookup ref s.subscriptions)
        (socket_of (Dict.lookup consumer s.consumers))

  -- `enqueueAndDeliverReliable`, once the store has answered with an id or, for a message that it did not
  -- take, with none.
  unfoldable pub enqueue_and_deliver :
      Server P → Option String → DurableEntry P → ℕ → ℕ → Server P × List (Effect P)
  enqueue_and_deliver s none entry ref consumer = (s, [])
  enqueue_and_deliver s (some id) entry ref consumer =
      deliver s (record entry { id = id }) ref consumer 1

  unfoldable pub retry_of : Pending P → Retry P
  unfolding retry_delay_ms
  retry_of p = record {
    entry = p.entry;
    subscription = p.subscription;
    consumer = p.consumer;
    attempt = p.attempt;
    delay_ms = retry_delay_ms p.policy p.attempt;
  }

  expire : Server P → String → Option (Pending P) → Server P × List (Effect P)
  unfolding retry_of
  expire s id none = (s, [])
  expire s id (some p) =
      let s' = record s { pending = Dict.erase id s.pending } in
      if leb p.policy.max_attempts p.attempt
      then (s', dead_letter p.entry.realm p.entry.id p.attempt ∷ [])
      else (record s' { retries = s.retries ++ (retry_of p ∷ []) }, [])

  -- The timer of `scheduleAckTimeout` for a message; without a timer nothing happens.
  unfoldable pub ack_timeout : Server P → String → Server P × List (Effect P)
  unfolding expire
  ack_timeout s id = expire s id (Dict.lookup id s.pending)

  -- Takes out the timer at a place.
  pick : ℕ → List (Retry P) → Option (Retry P × List (Retry P))
  pick n [] = none
  pick zero (r ∷ rs) = some (r, rs)
  pick (suc n) (r ∷ rs) = elim (pick n rs) [ none ↦ none | some (q, qs) ↦ some (q, r ∷ qs) ]

  retry_picked : Server P → Option (Retry P × List (Retry P)) → Server P × List (Effect P)
  retry_picked s none = (s, [])
  retry_picked s (some (r, rest)) =
      deliver (record s { retries = rest }) r.entry r.subscription r.consumer (r.attempt + 1)

  -- The delay of the n-th waiting retry is over.
  unfoldable pub retry : Server P → ℕ → Server P × List (Effect P)
  unfolding pick retry_picked
  retry s n = retry_picked s (pick n s.retries)

  replay_entry :
      Server P → DurableEntry P → ℕ → ℕ → Bool → Option String → Server P × List (Effect P)
  replay_entry s entry ref consumer ack_required none = (s, [])
  replay_entry s entry ref consumer ack_required (some socket) =
      if ack_required
      then deliver s entry ref consumer 1
      else (s, consume_plain socket entry ∷ store_ack entry.id ∷ [])

  replay_entries : Server P → List (DurableEntry P) → ℕ → ℕ → Bool → Server P × List (Effect P)
  unfolding replay_entry
  replay_entries s [] ref consumer ack_required = (s, [])
  replay_entries s (entry ∷ entries) ref consumer ack_required =
      let (s', out) =
        replay_entry s entry ref consumer ack_required
          (socket_of (Dict.lookup consumer s.consumers)) in
      let (s'', rest) = replay_entries s' entries ref consumer ack_required in (s'', out ++ rest)

  -- `replayDurableMessages`, with the messages that the store hands out.
  unfoldable pub replay : Server P → List (DurableEntry P) → ℕ → ℕ → Server P × List (Effect P)
  unfolding replay_entries
  replay s entries ref consumer = elim (Dict.lookup ref s.subscriptions) [
    | none ↦ (s, [])
    | some sub ↦ replay_entries s entries ref consumer sub.ack_required
  ]

  ack_found :
      Server P → String → String → Bool → Option (Pending P) → Server P × List (Effect P) × Reply
  ack_found s socket id stored none = (s, [], ack_fail 404)
  ack_found s socket id stored (some p) =
      if not (p.socket == socket) then (s, [], ack_fail 403) else (
        record s { pending = Dict.erase id s.pending },
        store_ack id ∷ [],
        (if stored then ack_ok id else ack_fail 500),
      )

  -- ACK from a socket: no message is invalid JSON, the empty id a missing one. `stored` tells whether the
  -- store's own `ack` succeeds.
  unfoldable pub ack : Server P → String → Option String → Bool → Server P × List (Effect P) × Reply
  unfolding ack_found
  ack s socket none stored = (s, [], ack_fail 400)
  ack s socket (some id) stored =
      if id == ""
      then (s, [], ack_fail 400)
      else ack_found s socket id stored (Dict.lookup id s.pending)

  -- 'disconnect', as far as it concerns deliveries.
  unfoldable pub disconnect : Server P → String → Server P
  unfolding go_offline
  disconnect s socket = record s {
    pending = Dict.retain (λ id p. not (p.socket == socket)) s.pending;
    consumers = go_offline socket s.consumers;
  }

  -- A consumer registers with a live socket, and a subscription gets its settings.
  unfoldable pub connect : Server P → ℕ → String → Server P
  connect s consumer socket = record s {
    consumers = Dict.insert consumer (some socket) s.consumers;
  }

  unfoldable pub subscribe : Server P → ℕ → Subscription → Server P
  subscribe s ref sub = record s { subscriptions = Dict.insert ref sub s.subscriptions }
