-- ===== src/MemoryStore.antt =====
-- `MemoryStore` of lib/storage/memory.js: durable messages kept in the process.
-- A missing text is the empty one: the code treats both alike. Each reading of the clock that a call
-- takes is an argument. `P` is the type of payloads, and `fresh` the id that is made up from random
-- bytes. A time stays a number of milliseconds where the code writes it as an ISO text.
pub mod Queue
pub mod Delivery
use tyo_mq.Prelude.{
  ℕ, zero, suc, ◌+◌, ◌-◌, ◌*◌, String, Bool, true, false, Option, none, some, List, [], ◌∷◌, ◌++◌,
  ◌&&◌, ◌||◌, length, ltb, not, filter, if◌then◌else◌, ◌==◌, string_eq,
}

-- `ttl` in seconds: missing, no finite or a negative number, or a whole number.
pub data Ttl : Type 0 where
  absent invalid : Ttl
  seconds : ℕ → Ttl

pub record Message (P : Type 0) : Type 0 where
  pub id : String
  pub consumer : String
  pub consumer_id : String
  pub payload : Option P
  pub message : Option P
  pub producer : String
  pub ttl : Ttl

-- A queued message. `dequeue` hands the payload out under the name `message`.
pub record Entry (P : Type 0) : Type 0 where
  pub id : String
  pub realm : String
  pub event : String
  pub consumer : String
  pub payload : Option P
  pub producer : String
  pub created_at : ℕ
  pub expires_at : Option ℕ

pub record DeadEntry (P : Type 0) : Type 0 where
  pub entry : Entry P
  pub reason : String
  pub dead_lettered_at : ℕ

pub record MemoryStore (P : Type 0) : Type 0 where
  pub default_ttl : Ttl
  pub messages : List (Entry P)
  pub dlq : List (DeadEntry P)

-- `text || fallback`
abbrev pub or_text : String → String → String
or_text s fallback = if s == "" then fallback else s

-- The first two arguments are the options `default_ttl` and `defaultTtl`.
unfoldable pub init : {P : Type 0} → Ttl → Ttl → MemoryStore P
init (seconds n) _ = record { default_ttl = seconds n; messages = []; dlq = [] }
init invalid _ = record { default_ttl = invalid; messages = []; dlq = [] }
init absent absent = record { default_ttl = seconds (24 * 60 * 60); messages = []; dlq = [] }
init absent other = record { default_ttl = other; messages = []; dlq = [] }

expiry : Ttl → ℕ → Option ℕ
expiry absent now = none
expiry invalid now = none
expiry (seconds n) now = some (now + n * 1000)

-- The test of `_purgeExpired`: a missing expiry and the number 0 never expire.
unfoldable pub is_alive : ℕ → Option ℕ → Bool
is_alive now none = true
is_alive now (some zero) = true
is_alive now (some (suc n)) = ltb now (suc n)

abbrev narrows : Option String → String → Bool
narrows none text = true
narrows (some wanted) text = text == wanted

module _ {P : Type 0} where
  -- `_expiresAt(message)`
  unfoldable pub expires_at : MemoryStore P → Ttl → ℕ → Option ℕ
  unfolding expiry
  expires_at s absent now = expiry s.default_ttl now
  expires_at s invalid now = none
  expires_at s (seconds n) now = expiry (seconds n) now

  abbrev pub alive : ℕ → Entry P → Bool
  alive now entry = is_alive now entry.expires_at

  unfoldable pub purge_expired : MemoryStore P → ℕ → MemoryStore P
  purge_expired s now = record s { messages = filter (alive now) s.messages }

  abbrev pub entry_of : MemoryStore P → String → String → Message P → String → ℕ → ℕ → Entry P
  entry_of s realm event message fresh u v = record {
    id = or_text message.id fresh;
    realm = or_text realm "default";
    event = event;
    consumer = or_text message.consumer message.consumer_id;
    payload = elim message.payload [ none ↦ message.message | some p ↦ some p ];
    producer = message.producer;
    created_at = u;
    expires_at = expires_at s message.ttl v;
  }

  -- `enqueue(realm, event, message)`, with the readings of the purge, `created_at` and the expiry.
  unfoldable pub enqueue :
      MemoryStore P → String → String → Message P → String → ℕ → ℕ → ℕ → MemoryStore P × String
  unfolding purge_expired
  enqueue s realm event message fresh t u v =
      let s' = purge_expired s t in
      let entry = entry_of s' realm event message fresh u v in
      (record s' { messages = s'.messages ++ (entry ∷ []) }, entry.id)

  abbrev pub addressed : String → String → String → Entry P → Bool
  addressed realm event consumer entry =
      entry.realm == realm && entry.event == event && entry.consumer == consumer

  -- `dequeue(realm, event, consumer)`
  unfoldable pub dequeue :
      MemoryStore P → String → String → String → ℕ → MemoryStore P × List (Entry P)
  unfolding purge_expired
  dequeue s realm event consumer now =
      let s' = purge_expired s now in
      (s', filter (addressed (or_text realm "default") event consumer) s'.messages)

  abbrev pub has_id : String → Entry P → Bool
  has_id id entry = entry.id == id

  unfoldable pub ack : MemoryStore P → String → MemoryStore P
  ack s id = record s { messages = filter (λ entry. not (has_id id entry)) s.messages }

  -- The last entry with the id, as the loop of `deadLetter` leaves it.
  find_last : String → Option (Entry P) → List (Entry P) → Option (Entry P)
  find_last id found [] = found
  find_last id found (entry ∷ entries) =
      find_last id (if has_id id entry then some entry else found) entries

  -- `deadLetter(msgId, reason)`
  unfoldable pub dead_letter : MemoryStore P → String → String → ℕ → MemoryStore P × Option String
  unfolding ack find_last
  dead_letter s id reason now = elim (find_last id none s.messages) [
    | none ↦ (ack s id, none)
    | some found ↦ (
      record s {
        messages = filter (λ entry. not (has_id id entry)) s.messages;
        dlq = s.dlq ++ (record { entry = found; reason = reason; dead_lettered_at = now } ∷ []);
      },
      some found.id,
    )
  ]

  -- `listDlq(realm)`: every realm if none is named.
  unfoldable pub list_dlq : MemoryStore P → String → List (DeadEntry P)
  list_dlq s realm = filter (λ dead. realm == "" || dead.entry.realm == realm) s.dlq

  unfoldable pub discard_dlq : MemoryStore P → String → MemoryStore P
  discard_dlq s id = record s { dlq = filter (λ dead. not (has_id id dead.entry)) s.dlq }

  -- `countQueued(realm, event, consumer)`
  unfoldable pub count_queued :
      MemoryStore P → String → Option String → Option String → ℕ → MemoryStore P × ℕ
  unfolding purge_expired
  count_queued s realm event consumer now =
      let s' = purge_expired s now in
      (
        s',
        length (
            filter
              (λ entry.
                entry.realm == or_text realm "default"
                && narrows event entry.event
                && narrows consumer entry.consumer)
              s'.messages),
      )

  -- `purgeRealm(realm)`
  unfoldable pub purge_realm : MemoryStore P → String → MemoryStore P × ℕ
  purge_realm s realm =
      let messages = filter (λ entry. not (entry.realm == realm)) s.messages in
      let dlq = filter (λ dead. not (dead.entry.realm == realm)) s.dlq in
      (
        record s { messages = messages; dlq = dlq },
        length s.messages + length s.dlq - length messages - length dlq,
      )
