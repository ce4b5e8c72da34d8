-- ===== src/SseTickets.antt =====
-- The tickets of lib/server.js with which a stream of server-sent events is opened: one map for the events of
-- a realm, one for the topics of notifications. A ticket is a random text, taken as an argument; its subject is
-- the realm or the topic.
pub mod Single
use tyo_mq.Prelude.{
  ℕ, ◌+◌, String, Bool, Option, none, some, List, [], ◌∷◌, ltb, not, if◌then◌else◌, ◌==◌, string_eq,
}
use tyo_mq.Prelude.Dict
use tyo_mq.Prelude.Dict.{Dict}

pub record Entry : Type 0 where
  pub subject : String
  pub expires : ℕ

abbrev pub Tickets : Type 0
Tickets = Dict String Entry

-- `SSE_TICKET_TTL_MS` and `NOTIFY_SSE_TICKET_TTL_MS`
abbrev pub ticket_ttl_ms : ℕ
ticket_ttl_ms = 60000

-- `issueSseTicket(realm)` and `issueNotifySseTicket(topic)`
unfoldable pub issue : Tickets → String → String → ℕ → Tickets
issue d ticket subject now =
    Dict.insert ticket (record { subject = subject; expires = now + ticket_ttl_ms }) d

consume_found : Tickets → String → ℕ → Option Entry → Tickets × Option Entry
consume_found d ticket now none = (d, none)
consume_found d ticket now (some entry) =
    (Dict.erase ticket d, (if ltb entry.expires now then none else some entry))

-- `consumeSseTicket(ticket)`; a ticket that is no text is the empty one.
unfoldable pub consume_sse : Tickets → String → ℕ → Tickets × Option Entry
unfolding consume_found
consume_sse d ticket now =
    if ticket == "" then (d, none) else consume_found d ticket now (Dict.lookup ticket d)

live_entry : Option Entry → ℕ → Option Entry
live_entry none now = none
live_entry (some entry) now = if ltb entry.expires now then none else some entry

-- `consumeNotifySseTicket(ticket)`, which deletes first.
unfoldable pub consume_notify : Tickets → String → ℕ → Tickets × Option Entry
unfolding live_entry
consume_notify d ticket now =
    if ticket == "" then (d, none) else (Dict.erase ticket d, live_entry (Dict.lookup ticket d) now)

-- `sweepSseTickets()`, and the sweep of the other map.
unfoldable pub sweep : Tickets → ℕ → Tickets
sweep d now = Dict.retain (λ ticket entry. not (ltb entry.expires now)) d
