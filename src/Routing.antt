-- ===== src/Routing.antt =====
-- generateMessage of lib/server.js: which subscriptions a produced message goes to, and how.
-- A missing text (a socket, a group) is the empty one. The lookups of the code create what is missing, as an
-- empty entry, which is read like a missing one here; the entries themselves are in Registry.
pub mod Groups
pub mod Relay
pub mod Fair
pub mod Reach
use tyo_mq.Prelude.{
  ℕ, zero, suc, ◌+◌, ◌-◌, ◌%◌, Bool, true, false, Option, none, some, List, [], ◌∷◌, ◌++◌, ◌&&◌,
  ◌||◌, not, if◌then◌else◌, ◌==◌, codes_eq, nat_eq, contains, length, filter, map,
}
use tyo_mq.Prelude.Dict
use tyo_mq.Prelude.Dict.{Dict}
use tyo_mq.Prelude.Text.{codes}
use tyo_mq.Topics.{topic_matches}

abbrev pub Name : Type 0
Name = List ℕ

-- What the package tyo-mq-protocol makes of an event and a producer, its name for all producers, and
-- JavaScript's lower case.
pub record Protocol : Type 0 where
  pub to_consumer_event : Name → Name → Name
  pub to_consumer_event_all : Name → Name
  pub all_publishers : Name
  pub lower : Name → Name

pub record Subscription : Type 0 where
  pub name : Name
  pub group : Name
  pub durable : Bool
  pub ack_required : Bool

pub record Consumer : Type 0 where
  pub socket : Name
  pub subscribe_tos : List Name

pub record Realm : Type 0 where
  pub subscriptions : Dict Name (Dict Name Subscription)
  pub consumers : Dict Name Consumer
  pub topic_patterns : Dict Name Name
  pub group_counters : Dict Name ℕ

-- The options of a message that routing reads.
pub record Options : Type 0 where
  pub relay : Bool
  pub guaranteed : Bool

-- A subscription that matches, with the socket of its consumer.
pub record Member : Type 0 where
  pub realm : Name
  pub event : Name
  pub subscription : Subscription
  pub socket : Name

-- `sendConsumeMessage`, `enqueueAndDeliverReliable` (which stores the message and then sends it), and
-- `enqueueDurableMessage`. The last one is the TypeError of enqueueAndDeliverReliable for a message that
-- enqueueDurableMessage does not store: it ends generateMessage.
pub data Delivery : Type 0 where
  live reliable queued failed : Member → Delivery

-- REALM_ALL
abbrev pub realm_all : Name
realm_all = codes "*"

abbrev no_consumer : Consumer
no_consumer = record { socket = []; subscribe_tos = [] }

-- `getConsumerMetaInfo`
unfoldable pub consumer_of : Realm → Name → Consumer
consumer_of r name = elim (Dict.lookup name r.consumers) [ none ↦ no_consumer | some c ↦ c ]

-- `getEventSubscriptions`
unfoldable pub subscriptions_of : Realm → Name → Dict Name Subscription
subscriptions_of r event = elim (Dict.lookup event r.subscriptions) [ none ↦ [] | some d ↦ d ]

abbrev member_of : Name → Realm → Name → Subscription → Member
member_of rid r event sub = record {
  realm = rid;
  event = event;
  subscription = sub;
  socket = (consumer_of r sub.name).socket;
}

module _ (protocol : Protocol) (event producer : Name) where
  -- The consumer subscribed to the producer, or to all.
  unfoldable pub listens : Consumer → Bool
  listens c = contains c.subscribe_tos protocol.all_publishers || contains c.subscribe_tos producer

  -- The members of an event whose consumer listens to the producer.
  unfoldable pub exact_members : Name → Realm → Name → Dict Name Subscription → List Member
  exact_members rid r ev [] = []
  exact_members rid r ev ((_, sub) ∷ subs) =
      let rest = exact_members rid r ev subs in
      if listens (consumer_of r sub.name) then member_of rid r ev sub ∷ rest else rest

  unfoldable pub all_members : Name → Realm → Name → Dict Name Subscription → List Member
  all_members rid r ev [] = []
  all_members rid r ev ((_, sub) ∷ subs) = member_of rid r ev sub ∷ all_members rid r ev subs

  -- The three names that a subscription without patterns can have.
  abbrev pub plain_events : List Name
  plain_events =
      protocol.to_consumer_event event producer
      ∷ protocol.to_consumer_event_all producer
      ∷ protocol.to_consumer_event event protocol.all_publishers
      ∷ []

  unfoldable pub plain_members : Name → Realm → List Name → List Member
  plain_members rid r [] = []
  plain_members rid r (ev ∷ evs) =
      exact_members rid r ev (subscriptions_of r ev) ++ plain_members rid r evs

  unfoldable pub pattern_members : Name → Realm → Dict Name Name → List Member
  pattern_members rid r [] = []
  pattern_members rid r ((ev, pattern) ∷ patterns) =
      let rest = pattern_members rid r patterns in
      if contains plain_events ev
      then rest
      else if not (topic_matches pattern (protocol.lower event))
      then rest
      else all_members rid r ev (subscriptions_of r ev) ++ rest

  abbrev realm_members : Name → Option Realm → List Member
  realm_members rid none = []
  realm_members rid (some r) =
      plain_members rid r plain_events ++ pattern_members rid r r.topic_patterns

  -- What the message is dispatched to, in this order: the realm, and the realm for all.
  unfoldable pub matched : Dict Name Realm → Name → List Member
  matched realms rid =
      realm_members rid (Dict.lookup rid realms)
      ++ (if rid == realm_all then [] else realm_members realm_all (Dict.lookup realm_all realms))

module _ (options : Options) where
  -- `deliverToSubscription`
  unfoldable pub deliver : Member → List Delivery
  deliver m =
      if not (m.socket == [])
      then if not m.subscription.ack_required
        then live m ∷ []
        else if m.subscription.durable || options.guaranteed
        then reliable m ∷ []
        else failed m ∷ []
      else if m.subscription.durable || options.guaranteed
      then queued m ∷ []
      else []

-- Whether an error was thrown.
unfoldable pub throws : List Delivery → Bool
throws [] = false
throws (failed m ∷ ds) = true
throws (live m ∷ ds) = throws ds
throws (reliable m ∷ ds) = throws ds
throws (queued m ∷ ds) = throws ds

pub record Bucket : Type 0 where
  pub realm : Name
  pub group : Name
  pub members : List Member

-- `targetRealmId + '\n' + subscription.group`
abbrev pub bucket_key : Member → Name
bucket_key m = m.realm ++ (10 ∷ m.subscription.group)

abbrev pub empty_bucket : Member → Bucket
empty_bucket m = record { realm = m.realm; group = m.subscription.group; members = [] }

abbrev or_new : Option Bucket → Member → Bucket
or_new none m = empty_bucket m
or_new (some b) m = b

unfoldable pub add_member : Member → Dict Name Bucket → Dict Name Bucket
add_member m buckets =
    let b = or_new (Dict.lookup (bucket_key m) buckets) m in
    Dict.insert (bucket_key m) (record b { members = b.members ++ (m ∷ []) }) buckets

-- `dispatch`: a member of a group is put in its bucket, any other is served at once.
unfoldable pub dispatch : Options → Member → Dict Name Bucket → Dict Name Bucket × List Delivery
dispatch options m buckets =
    if not (m.subscription.group == [])
    then if options.relay then (buckets, []) else (add_member m buckets, [])
    else if options.relay && m.socket == []
    then (buckets, [])
    else (buckets, deliver options m)

unfoldable pub dispatch_all :
    Options → List Member → Dict Name Bucket → Dict Name Bucket × List Delivery
dispatch_all options [] buckets = (buckets, [])
dispatch_all options (m ∷ ms) buckets =
    let (buckets', here) = dispatch options m buckets in
    let (buckets'', rest) = dispatch_all options ms buckets' in
    if throws here then (buckets', here) else (buckets'', here ++ rest)

abbrev pub is_online : Member → Bool
is_online m = not (m.socket == [])

abbrev or_all : List Member → List Member → List Member
or_all [] members = members
or_all (m ∷ ms) members = m ∷ ms

-- The online members, or all if none is online.
unfoldable pub candidates : Bucket → List Member
candidates b = or_all (filter is_online b.members) b.members

abbrev pub nth : ℕ → List Member → Option Member
nth n [] = none
nth zero (m ∷ ms) = some m
nth (suc n) (m ∷ ms) = nth n ms

-- `candidates[(counter - 1) % candidates.length]`
unfoldable pub pick : ℕ → List Member → Option Member
pick counter ms = nth ((counter - 1) % length ms) ms

abbrev pub counter_in : Option Realm → Name → ℕ
counter_in none group = 0
counter_in (some r) group = elim (Dict.lookup group r.group_counters) [ none ↦ 0 | some n ↦ n ]

abbrev count_up : Name → ℕ → Option Realm → Dict Name Realm → Name → Dict Name Realm
count_up group n none realms rid = realms
count_up group n (some r) realms rid =
    Dict.insert rid (record r { group_counters = Dict.insert group n r.group_counters }) realms

abbrev deliver_picked : Options → Option Member → List Delivery
deliver_picked options none = []
deliver_picked options (some m) = deliver options m

-- The turn of one group.
unfoldable pub serve : Options → Bucket → Dict Name Realm → Dict Name Realm × List Delivery
serve options b realms =
    let counter = suc (counter_in (Dict.lookup b.realm realms) b.group) in
    (
      count_up b.group counter (Dict.lookup b.realm realms) realms b.realm,
      deliver_picked options (pick counter (candidates b)),
    )

unfoldable pub serve_all :
    Options → Dict Name Bucket → Dict Name Realm → Dict Name Realm × List Delivery
serve_all options [] realms = (realms, [])
serve_all options ((_, b) ∷ bs) realms =
    let (realms', here) = serve options b realms in
    let (realms'', rest) = serve_all options bs realms' in
    if throws here then (realms', here) else (realms'', here ++ rest)

-- `generateMessage`
unfoldable pub generate_message :
    Protocol → Options → Dict Name Realm → Name → Name → Name → Dict Name Realm × List Delivery
generate_message protocol options realms rid event producer =
    let (buckets, served) = dispatch_all options (matched protocol event producer realms rid) [] in
    let (realms', picked) = serve_all options buckets realms in
    if throws served then (realms, served) else (realms', served ++ picked)
