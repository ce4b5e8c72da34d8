-- ===== src/Lib.antt =====
-- tyo-mq: a message broker over socket.io and HTTP, written in JavaScript for Node.
--
-- The broker is one process with one event loop. lib/server.js holds the realms, their producers, consumers
-- and subscriptions, and the handlers of the sockets and of the HTTP routes; it calls small stateful parts,
-- each in a file of its own under lib/. A handler runs to its end before the next one starts, so that an
-- operation is a function from the state and its arguments to the state, the answer and what it sends, and a
-- history of the broker is a list of calls.
--
-- Which file is about which code:
-- - Reliable: acknowledged delivery in lib/server.js. The table pendingAcks, its timers (scheduleAckTimeout),
--   deliverDurableEntry, enqueueAndDeliverReliable, replayDurableMessages, the retry policy, the handler ACK
--   and the part of the handler 'disconnect' that ends deliveries. Reliable/Calls has the call lists,
--   Reliable/Rules and Reliable/Invariant a rule for what all sends of a run have in common, and
--   Reliable/Attempts, Limit, Keys, Acked and Late what follows.
-- - Routing: generateMessage and deliverToSubscription of lib/server.js, which decide where a produced message goes:
--   Routing/Reach is about subscriptions outside groups, Groups and Fair about consumer groups, Relay about
--   messages from another node.
-- - MemoryStore: the durable queue lib/storage/memory.js that these deliveries come from.
-- - ChatTickets: lib/chat-ticket-store.js, the single-use tickets of chat attachments.
-- - NonceCache: lib/nonce-cache.js, the nonces of signed requests.
-- - NotifyAuth: lib/notify-auth.js, the proofs of topic owners, isValidTopic of lib/notify.js, and
--   notifyProofRejected of lib/server.js, which puts both together.
-- - Prekeys: PREKEY_PUBLISH and PREKEY_TAKE of lib/server.js.
-- - TokenRegistry: the class TokenRegistry of lib/push.js, the push endpoints of identities and the gate for
--   wakes.
-- - UrlGuard: the guard of lib/push.js against requests to private addresses: parseIPv4, parseIPv6, classifyV4,
--   classifyAddress and, in UrlGuard/Urls, isSafePushUrl, the guarded lookup and the send of
--   UnifiedPushTransport. UrlGuard/Quads, Words, Ranges, Embedded, Urls/Loop and Urls/Safety have the proofs.
-- - Limits: lib/limits.js, the token buckets and the connection counts; Limits/Checks has the checks of connections,
--   messages and realms, Limits/Connections their calls in the handlers 'connection' and 'disconnect' of
--   lib/server.js, Limits/Admitted, Quota and Idle what a bucket grants.
-- - Topics: topicMatches of lib/server.js.
-- - Authorize: authorize, roleAllows, isAuthRequiredForRealm, isKeyRequiredForRealm and
--   isAcceptanceRequiredForRealm of lib/server.js, which guard the events of sockets, and in
--   Authorize/Authentication the handler AUTHENTICATION.
-- - RealmKeys: lib/realm-keys.js with realmKeyAccepted and getRealmPresharedKeyHash of lib/server.js.
-- - Registry: getProducerMetaInfo, getConsumerMetaInfo, setupConsumer, setupProducer, findRecipientSocket and
--   the part of the handler 'disconnect' of lib/server.js that is about names.
-- - NotifyRing: the class NotifyRing of lib/notify.js, the recent messages of notify topics, with NotifyRing/Bounds
--   and NotifyRing/CatchUp.
-- - SealedInbox: SEALED_SUBSCRIBE of lib/server.js, with SealedInbox/Drain on the client that asks until its
--   inbox is empty.
-- - Actions: validateActions of lib/notify.js, the buttons of a notification.
-- - SseTickets: issueSseTicket, consumeSseTicket, sweepSseTickets of lib/server.js and their counterparts for
--   notifications.
-- - Prelude: what the components share. Dict stands for Map and for objects used as maps, in insertion order;
--   Text has character codes and printed numbers.
-- - Tests: concrete runs, and the theorems at concrete data.
--
-- How the code is read. Date.now() is an argument of each call, one for each reading. Random ids and tokens
-- are arguments, hashes and signatures parameters with the property that is relied on as a hypothesis of the
-- theorem. Tokens of a rate limit are counted in exact fractions, so that no rounding is modelled. Numbers are
-- natural numbers: times, counts and delays in milliseconds are whole and not negative.
-- A missing text is the empty one where the code tests it by its truth. Objects that the code shares and
-- changes in place are named by references (Reliable); elsewhere nothing is shared. A timer is the data that
-- its closure holds, and that it fires is a call, so timers fire in any order. Promises of the store are taken
-- as answered within the call.
--
-- Bounds and fuel. The digits of a timestamp are computed with fuel 21, enough for numbers below 10 ^ 21.
-- Bitwise operators are the native ones. A client that drains its
-- inbox (SealedInbox/Drain) has as fuel the rounds it may ask. Every other loop of the modelled code walks a list.
--
-- Not modelled: broadcasts, the validators of tokens, subscriptions, push transports, notify boards, the sinks of server-sent events, the sending side of sealed sender,
-- cluster synchronisation, the Redis and SQLite stores, settings, the command line programs and the web
-- client. They are sockets, files, databases or cryptography for the most part; the rest of the logic in them
-- (stores) can be modelled the way the parts above are.
pub mod Prelude
pub mod NonceCache
pub mod NotifyAuth
pub mod ChatTickets
pub mod MemoryStore
pub mod Topics
pub mod UrlGuard
pub mod Limits
pub mod Routing
pub mod NotifyRing
pub mod RealmKeys
pub mod SealedInbox
pub mod Prekeys
pub mod Reliable
pub mod TokenRegistry
pub mod Authorize
pub mod Actions
pub mod SseTickets
pub mod Registry
mod Tests
