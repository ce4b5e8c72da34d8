-- ===== src/Tests/Rings.antt =====
-- Concrete notify topics.
use tyo_mq.Prelude.{ℕ, ◌+◌, ◌≡◌, refl, none, some, List, [], ◌∷◌, map, codes_eq, nat_eq, arith}
use tyo_mq.Prelude.Dict
use tyo_mq.Prelude.Text.{codes}
use tyo_mq.NotifyRing.{
  Message, Kept, Topic, Ring, shift_old, prune, place, sort_by_last, erase_each,
  evict_topics_if_needed, cap_msgs, append, duration_from, duration_ms,
}
use tyo_mq.NotifyRing.Bounds.{append_call, since_call, run, IsBounded, run-IsBounded}

abbrev note : ℕ → Message ℕ
note n = record { id = b'n' ∷ (b'0' + n) ∷ []; body = n }

-- Two messages are kept of each of two topics, for a minute.
abbrev small : Ring ℕ
small = record { ttl_ms = 60_000; max_per_topic = 2; max_topics = 2; topics = [] }

durations :
    (duration_ms (codes "10m") ≡ some 600_000)
    × (duration_ms (codes "h") ≡ none)
    × (duration_ms (codes "n1") ≡ none)
unfolding duration_ms duration_from nat_eq
durations = (refl, refl, refl)

third_topic :
    map
      (λ e. e.0)
      (append
        (append (append small (codes "a") (note 1) 1) (codes "b") (note 2) 2)
        (codes "c")
        (note 3)
        3).topics
    ≡ codes "b" ∷ codes "c" ∷ []
unfolding append prune shift_old cap_msgs evict_topics_if_needed erase_each sort_by_last place
    Dict.lookup Dict.insert Dict.erase codes_eq nat_eq
third_topic = refl

small-IsBounded : IsBounded small
small-IsBounded = record { nodup = tt; each = tt; count = omega arith }

run-IsBounded_example :
    IsBounded
      (run small (append_call (codes "a") (note 1) 1 ∷ since_call (codes "a") (codes "all") 2 ∷ []))
run-IsBounded_example =
    run-IsBounded small
      (append_call (codes "a") (note 1) 1 ∷ since_call (codes "a") (codes "all") 2 ∷ [])
      small-IsBounded

abbrev first : Topic ℕ
first = record { msgs = record { at = 1; msg = note 1 } ∷ []; last = 1 }

abbrev started : Ring ℕ
started = record small { topics = (codes "a", first) ∷ [] }

-- One more message fits.
abbrev news : List (Kept ℕ)
news = record { at = 9; msg = note 2 } ∷ []
