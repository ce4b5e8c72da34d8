-- ===== src/Tests/Routes.antt =====
-- A produced message in a realm with a group of two workers and two other consumers.
use tyo_mq.Prelude.{
  ◌≤◌, ◌<◌, ◌%◌, ◌≡◌, refl, true, false, some, [], ◌∷◌, ◌++◌, length, take, drop, codes_eq, nat_eq,
  arith,
}
use tyo_mq.Prelude.Dict
use tyo_mq.Prelude.Dict.{Dict}
use tyo_mq.Prelude.Text.{codes}
use tyo_mq.Routing.{
  Name, Protocol, Subscription, Consumer, Realm, Options, Member, live, reliable, queued, failed,
  throws, Bucket, consumer_of, subscriptions_of, listens, exact_members, plain_members,
  pattern_members, matched, deliver, add_member, dispatch, dispatch_all, candidates, pick,
  counter_in, serve, serve_all, generate_message,
}
use tyo_mq.Routing.Groups.{copies, generate_message_once}
use tyo_mq.Routing.Fair.{turns, deliver_each, turns_lem}

abbrev protocol : Protocol
protocol = record {
  to_consumer_event = λ event producer. producer ++ (b'-' ∷ event);
  to_consumer_event_all = λ producer. producer ++ codes "-ALL";
  all_publishers = codes "ANY";
  lower = λ text. text;
}

abbrev worker : Name → Subscription
worker name = record { name = name; group = codes "g"; durable = true; ack_required = false }

abbrev watcher : Subscription
watcher = record { name = codes "w"; group = []; durable = true; ack_required = true }

abbrev archive : Subscription
archive = record { name = codes "a"; group = []; durable = true; ack_required = false }

abbrev listening : Name → Consumer
listening socket = record { socket = socket; subscribe_tos = codes "p" ∷ [] }

-- The watcher "w" and the workers "x" and "y" are connected, the archive "a" is not.
abbrev realm : Realm
realm = record {
  subscriptions =
      (
        codes "p-e",
        (codes "x", worker (codes "x"))
            ∷ (codes "w", watcher)
            ∷ (codes "a", archive)
            ∷ (codes "y", worker (codes "y"))
            ∷ [],
      )
      ∷ [];
  consumers =
      (codes "x", listening (codes "s1"))
      ∷ (codes "y", listening (codes "s2"))
      ∷ (codes "w", listening (codes "s3"))
      ∷ (codes "a", listening [])
      ∷ [];
  topic_patterns = [];
  group_counters = [];
}

abbrev realms : Dict Name Realm
realms = (codes "r", realm) ∷ []

abbrev plain : Options
plain = record { relay = false; guaranteed = false }

abbrev relayed : Options
relayed = record { relay = true; guaranteed = true }

abbrev at_worker : Name → Name → Member
at_worker name socket = record {
  realm = codes "r";
  event = codes "p-e";
  subscription = worker name;
  socket = socket;
}

abbrev at_watcher : Member
at_watcher = record {
  realm = codes "r";
  event = codes "p-e";
  subscription = watcher;
  socket = codes "s3";
}

abbrev at_archive : Member
at_archive = record { realm = codes "r"; event = codes "p-e"; subscription = archive; socket = [] }

sent :
    (generate_message protocol plain realms (codes "r") (codes "e") (codes "p")).1
    ≡ reliable at_watcher ∷ queued at_archive ∷ live (at_worker (codes "x") (codes "s1")) ∷ []
unfolding generate_message dispatch_all dispatch deliver serve_all serve matched plain_members
    throws exact_members pattern_members subscriptions_of consumer_of listens add_member candidates
    pick Dict.lookup Dict.insert codes_eq nat_eq
sent = refl

generate_message_once_example :
    copies
      (codes "r")
      (codes "g")
      (generate_message protocol plain realms (codes "r") (codes "e") (codes "p")).1
    ≤ 1
generate_message_once_example =
    generate_message_once plain protocol realms (codes "r") (codes "e") (codes "p") (codes "r")
      (codes "g") (ground arith)

-- Where the watcher is not durable the message stops at it.
abbrev careless : Subscription
careless = record { name = codes "w"; group = []; durable = false; ack_required = true }

stopped :
    deliver plain (record at_watcher { subscription = careless })
    ≡ failed (record at_watcher { subscription = careless }) ∷ []
unfolding deliver codes_eq
stopped = refl

abbrev workers : Bucket
workers = record {
  realm = codes "r";
  group = codes "g";
  members = at_worker (codes "x") (codes "s1") ∷ at_worker (codes "y") (codes "s2") ∷ [];
}

realm_there : Dict.lookup workers.realm realms ≡ some realm
unfolding Dict.lookup codes_eq
realm_there = refl

two_candidates : 0 < length (candidates workers)
unfolding candidates codes_eq
two_candidates = omega arith

turns_lem_example :
    turns plain workers realms (length (candidates workers))
    ≡ deliver_each plain (
        drop
          (counter_in (some realm) workers.group % length (candidates workers))
          (candidates workers)
        ++ take
            (counter_in (some realm) workers.group % length (candidates workers))
            (candidates workers))
turns_lem_example = turns_lem plain workers realms realm realm_there two_candidates
