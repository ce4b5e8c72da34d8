-- ===== src/NotifyRing/CatchUp.antt =====
-- A client that asks for what came after its last message.
use tyo_mq.Prelude.{ℕ, ◌≤◌, ◌≡◌, Option, none, some, List, [], ◌∷◌, ◌++◌, codes_eq, length}
use tyo_mq.Prelude.Dict
use tyo_mq.Prelude.Dict.{Dict, NodupKeys}
use tyo_mq.NotifyRing.{Kept, Ring, append}

module _ {B : Type 0} where
  abbrev appended : Option (List (Kept B)) → List (Kept B) → Option (List (Kept B))
  appended none news = none
  appended (some rs) news = some (rs ++ news)

  -- All of them were published at the time or later.
  abbrev pub AllSince : ℕ → List (Kept B) → Type 0
  AllSince time [] = Unit
  AllSince time (r ∷ rs) = (time ≤ r.at) × AllSince time rs

  abbrev pub AllUntil : ℕ → List (Kept B) → Type 0
  AllUntil time [] = Unit
  AllUntil time (r ∷ rs) = (r.at ≤ time) × AllUntil time rs

  -- These messages are published, each at its time.
  unfoldable pub append_all : Ring B → List ℕ → List (Kept B) → Ring B
  append_all ring topic [] = ring
  append_all ring topic (r ∷ rs) = append_all (append ring topic r.msg r.at) topic rs

  -- The topic holds these messages, in a ring with these bounds that has room for its topics.
  record Holds (ring like : Ring B) (topic : List ℕ) (msgs : List (Kept B)) : Type 0 where
    ttl : ring.ttl_ms ≡ like.ttl_ms
    per_topic : ring.max_per_topic ≡ like.max_per_topic
    few : length ring.topics ≤ ring.max_topics
    last : ℕ
    held : Dict.lookup topic ring.topics ≡ some (record { msgs = msgs; last = last })
