-- ===== src/NotifyRing.antt =====
-- The ring of lib/notify.js: the recent messages of each notify topic, for `?since=`.
-- A message is anything that has an id. A missing `since` is the empty text.
pub mod Bounds
pub mod CatchUp
use tyo_mq.Prelude.{
  ℕ, zero, suc, ◌+◌, ◌-◌, ◌*◌, ◌≤◌, Bool, true, false, Option, none, some, List, [], ◌∷◌, ◌++◌,
  ◌&&◌, ◌||◌, not, leb, ltb, if◌then◌else◌, ◌==◌, codes_eq, nat_eq, length, drop, take, filter, map,
  or_default,
}
use tyo_mq.Prelude.Dict
use tyo_mq.Prelude.Dict.{Dict}
use tyo_mq.Prelude.Text.{codes}

pub record Message (B : Type 0) : Type 0 where
  pub id : List ℕ
  pub body : B

-- `{at, msg}`
pub record Kept (B : Type 0) : Type 0 where
  pub at : ℕ
  pub msg : Message B

pub record Topic (B : Type 0) : Type 0 where
  pub msgs : List (Kept B)
  pub last : ℕ

pub record Ring (B : Type 0) : Type 0 where
  pub ttl_ms : ℕ
  pub max_per_topic : ℕ
  pub max_topics : ℕ
  pub topics : Dict (List ℕ) (Topic B)

-- `new NotifyRing(opts)`
unfoldable pub init : {B : Type 0} → Option ℕ → Option ℕ → Option ℕ → Ring B
init ttl_ms max_per_topic max_topics = record {
  ttl_ms = or_default ttl_ms (12 * 60 * 60 * 1000);
  max_per_topic = or_default max_per_topic 100;
  max_topics = or_default max_topics 5000;
  topics = [];
}

module _ {B : Type 0} where
  -- The loop of `_prune`.
  unfoldable pub shift_old : ℕ → List (Kept B) → List (Kept B)
  shift_old cutoff [] = []
  shift_old cutoff (r ∷ rs) =
      let rest = shift_old cutoff rs in if ltb r.at cutoff then rest else r ∷ rs

  -- `_prune` on the messages of a topic
  unfoldable pub prune : Ring B → ℕ → List (Kept B) → List (Kept B)
  prune ring now msgs = shift_old (now - ring.ttl_ms) msgs

  -- A topic among topics that are sorted by their last use, behind those with the same one.
  unfoldable pub place : List ℕ × Topic B → Dict (List ℕ) (Topic B) → Dict (List ℕ) (Topic B)
  place e [] = e ∷ []
  place e (f ∷ fs) =
      let rest = place e fs in if leb (e.1).last (f.1).last then e ∷ f ∷ fs else f ∷ rest

  -- `entries.sort((a, b) => a[1].last - b[1].last)`
  unfoldable pub sort_by_last : Dict (List ℕ) (Topic B) → Dict (List ℕ) (Topic B)
  sort_by_last [] = []
  sort_by_last (e ∷ es) = place e (sort_by_last es)

  -- The topics of these entries are deleted.
  unfoldable pub erase_each :
      Dict (List ℕ) (Topic B) → Dict (List ℕ) (Topic B) → Dict (List ℕ) (Topic B)
  erase_each [] topics = topics
  erase_each (e ∷ es) topics = erase_each es (Dict.erase e.0 topics)

  -- `_evictTopicsIfNeeded`
  unfoldable pub evict_topics_if_needed : Ring B → Ring B
  evict_topics_if_needed ring =
      if leb (length ring.topics) ring.max_topics then ring else record ring {
        topics =
            erase_each (take (length ring.topics - ring.max_topics) (sort_by_last ring.topics))
              ring.topics;
      }

  -- `splice(0, length - max)` where there are more
  unfoldable pub cap_msgs : ℕ → List (Kept B) → List (Kept B)
  cap_msgs max msgs = if ltb max (length msgs) then drop (length msgs - max) msgs else msgs

  abbrev pub msgs_of : Option (Topic B) → List (Kept B)
  msgs_of none = []
  msgs_of (some t) = t.msgs

  -- `append`
  unfoldable pub append : Ring B → List ℕ → Message B → ℕ → Ring B
  append ring topic msg now =
      let old = prune ring now (msgs_of (Dict.lookup topic ring.topics)) in
      let msgs = cap_msgs ring.max_per_topic (old ++ (record { at = now; msg = msg } ∷ [])) in
      evict_topics_if_needed (record ring {
        topics = Dict.insert topic (record { msgs = msgs; last = now }) ring.topics;
      })

  -- The messages behind the one with the id, or all if there is none.
  unfoldable pub behind : List ℕ → List (Kept B) → Option (List (Kept B))
  behind id [] = none
  behind id (r ∷ rs) = let rest = behind id rs in if r.msg.id == id then some rs else rest

  abbrev pub or_all : Option (List (Kept B)) → List (Kept B) → List (Kept B)
  or_all none all = all
  or_all (some rs) all = rs

  unfoldable pub in_span : ℕ → Option ℕ → List ℕ → List (Kept B) → List (Kept B)
  in_span now (some ms) since all = filter (λ r. leb (now - ms) r.at) all
  in_span now none since all = or_all (behind since all) all

  -- The answer of `since` from the messages that are kept. `duration` reads the text as a duration
  -- in milliseconds.
  unfoldable pub answer : (List ℕ → Option ℕ) → ℕ → List ℕ → List (Kept B) → List (Kept B)
  answer duration now since all =
      if since == []
      then []
      else if since == codes "all"
      then all
      else in_span now (duration since) since all

-- What a unit stands for, in milliseconds.
abbrev unit_ms : ℕ → Option ℕ
unit_ms c =
    if c == b's'
    then some 1000
    else if c == b'm'
    then some 60_000
    else if c == b'h'
    then some 3_600_000
    else if c == b'd'
    then some 86_400_000
    else none

abbrev times : ℕ → Option ℕ → Option ℕ
times n none = none
times n (some ms) = some (n * ms)

-- The rest of a duration behind the number `n`; a digit was seen or not.
unfoldable pub duration_from : ℕ → Bool → List ℕ → Option ℕ
duration_from n seen [] = none
duration_from n seen (c ∷ []) = if seen then times n (unit_ms c) else none
duration_from n seen (c ∷ d ∷ cs) =
    let rest = duration_from (n * 10 + (c - b'0')) true (d ∷ cs) in
    if leb b'0' c && leb c b'9' then rest else none

-- `/^(\d+)([smhd])$/` with its number times its unit
unfoldable pub duration_ms : List ℕ → Option ℕ
duration_ms text = duration_from 0 false text

module _ {B : Type 0} where
  abbrev pub msg_of : Kept B → Message B
  msg_of r = r.msg

  -- `since`, which prunes the topic as well
  unfoldable pub since : Ring B → List ℕ → List ℕ → ℕ → Ring B × List (Message B)
  since ring topic from now = elim (Dict.lookup topic ring.topics) [
    | none ↦ (ring, [])
    | some t ↦ (
      record ring {
        topics = Dict.insert topic (record t { msgs = prune ring now t.msgs }) ring.topics;
      },
      map msg_of (answer duration_ms now from (prune ring now t.msgs)),
    )
  ]

  -- `topicCount`
  unfoldable pub topic_count : Ring B → ℕ
  topic_count ring = length ring.topics
