-- ===== src/Registry.antt =====
-- The registry of a realm in lib/server.js: producers and consumers with their sockets, registration, and what a
-- disconnect does to it. A missing id is the empty one. The name of the event that tells a peer of the
-- disconnect is made from its id by the client's package, so a notice has the id. Names are taken in insertion
-- order, and a peer has a name.
pub mod Offline
use tyo_mq.Prelude.{
  ℕ, String, Bool, true, false, Option, none, some, List, [], ◌∷◌, ◌++◌, if◌then◌else◌, ◌==◌,
  string_eq,
}
use tyo_mq.Prelude.Dict
use tyo_mq.Prelude.Dict.{Dict}

-- An entry; its peers are the subscribers of a producer, the producers that a consumer subscribes to.
pub record Meta : Type 0 where
  pub id : String
  pub socket : Option String
  pub online : Bool
  pub peers : List String
  pub offline_at : Option ℕ

pub record Realm : Type 0 where
  pub producers : Dict String Meta
  pub consumers : Dict String Meta

-- A message about a disconnect: the socket and the id that it goes to, and the names in it. The handler fills one
-- object, so the name of the producer stays in the messages about the consumer.
pub record Notice : Type 0 where
  pub to_socket : String
  pub to_id : String
  pub producer : Option String
  pub consumer : Option String

abbrev new_meta : Meta
new_meta = record { id = ""; socket = none; online = false; peers = []; offline_at = none }

-- `getProducerMetaInfo` and `getConsumerMetaInfo` on their map
unfoldable pub ensure : String → Dict String Meta → Dict String Meta
ensure name d = elim (Dict.lookup name d) [ none ↦ Dict.insert name new_meta d | some m ↦ d ]

abbrev pub socket_of : Option Meta → Option String
socket_of none = none
socket_of (some m) = m.socket

-- `setupConsumer(consumer, consumerId)` and `setupProducer` from a socket
joined : Option Meta → String → String → Meta
joined none id socket = record new_meta { id = id; socket = some socket; online = true }
joined (some m) id socket = record m {
  id = (if id == "" then m.id else id);
  socket = some socket;
  online = true;
}

unfoldable pub setup : Dict String Meta → String → String → String → Dict String Meta
unfolding joined
setup d name id socket = Dict.insert name (joined (Dict.lookup name d) id socket) d

-- `findRecipientSocket(realm, identity)`
found_socket : Option Meta → Option Meta → Option String
found_socket none producer = socket_of producer
found_socket (some consumer) producer = consumer.socket

unfoldable pub find_recipient_socket : Realm → String → Option String
unfolding found_socket
find_recipient_socket r identity =
    found_socket (Dict.lookup identity r.consumers) (Dict.lookup identity r.producers)

notice_to : Option Meta → Option String → Option String → List Notice
notice_to none producer consumer = []
notice_to (some m) producer consumer = elim m.socket [
  | none ↦ []
  | some socket ↦
      record { to_socket = socket; to_id = m.id; producer = producer; consumer = consumer } ∷ []
]

-- The loop over the peers, whose entries are made if they are missing.
notify :
    List String → Option String → Option String → Dict String Meta → Dict String Meta × List Notice
unfolding notice_to ensure
notify [] producer consumer d = (d, [])
notify (peer ∷ peers) producer consumer d =
    let d' = ensure peer d in
    let (d'', notices) = notify peers producer consumer d' in
    (d'', notice_to (Dict.lookup peer d') producer consumer ++ notices)

abbrev pub holds : String → Meta → Bool
holds socket m = elim m.socket [ none ↦ false | some held ↦ held == socket ]

abbrev went_offline : Meta → ℕ → Meta
went_offline m now = record m { socket = none; online = false; offline_at = some now }

-- The first entry with the socket goes offline; the loop stops there.
take_offline : String → ℕ → Dict String Meta → Dict String Meta
take_offline socket now [] = []
take_offline socket now ((name, m) ∷ d) =
    if holds socket m then (name, went_offline m now) ∷ d else (name, m) ∷ take_offline socket now d

-- That entry.
unfoldable pub first_holder : String → Dict String Meta → Option (String × Meta)
first_holder socket [] = none
first_holder socket ((name, m) ∷ d) =
    if holds socket m then some (name, m) else first_holder socket d

-- The name of the producer is filled in for its first subscriber.
named_in : String → List String → Option String
named_in name [] = none
named_in name (peer ∷ peers) = some name

tell_consumers :
    Option (String × Meta) → Dict String Meta → Dict String Meta × List Notice × Option String
unfolding notify named_in
tell_consumers none consumers = (consumers, [], none)
tell_consumers (some (name, m)) consumers =
    let (d, notices) = notify m.peers (some name) none consumers in
    (d, notices, named_in name m.peers)

tell_producers :
    Option (String × Meta) → Option String → Dict String Meta → Dict String Meta × List Notice
unfolding notify
tell_producers none producer producers = (producers, [])
tell_producers (some (name, m)) producer producers = notify m.peers producer (some name) producers

-- 'disconnect', as far as it concerns the registry
unfoldable pub disconnect : Realm → String → ℕ → Realm × List Notice
unfolding tell_consumers tell_producers take_offline first_holder
disconnect r socket now =
    let (consumers, told, producer) =
      tell_consumers (first_holder socket r.producers) r.consumers in
    let producers = take_offline socket now r.producers in
    let (producers', told') = tell_producers (first_holder socket consumers) producer producers in
    (
      record { producers = producers'; consumers = take_offline socket now consumers },
      told ++ told',
    )
