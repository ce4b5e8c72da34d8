-- ===== src/NotifyRing/Bounds.antt =====
-- The ring keeps to its bounds.
use tyo_mq.Prelude.{
  ℕ, zero, suc, ◌+◌, ◌-◌, ◌≤◌, ◌≡◌, ◌≢◌, refl, ap, ◌∙◌, Bool, true, none, some, List, [], ◌∷◌, ◌++◌,
  leb, if◌then◌else◌, ◌==◌, ==_refl, codes_eq, length, length-drop, take, arith, Bool-cases,
  Option-cases, inl, inr,
}
use tyo_mq.Prelude.Dict
use tyo_mq.Prelude.Dict.{
  Dict, NodupKeys, AllEntries, insert-AllEntries, erase-AllEntries, insert-NodupKeys,
  erase-NodupKeys, lookup-erase, length-erase, length-insert, lookup-AllEntries,
}
use tyo_mq.NotifyRing.{
  Message, Kept, Topic, Ring, shift_old, prune, place, sort_by_last, erase_each,
  evict_topics_if_needed, cap_msgs, msgs_of, append, since,
}

pub data Call (B : Type 0) : Type 0 where
  append_call : (topic : List ℕ) (msg : Message B) (now : ℕ) → Call B
  since_call : (topic from : List ℕ) (now : ℕ) → Call B

module _ {B : Type 0} where
  lookup-place :
      (j k : List ℕ) (t : Topic B) (es : Dict (List ℕ) (Topic B))
      → Dict.lookup k es ≡ none
      → Dict.lookup j (place (k, t) es) ≡ (if j == k then some t else Dict.lookup j es)
  unfolding place Dict.lookup
  lookup-place j k t [] h = refl
  lookup-place j k t ((i, u) ∷ es) h = ground (arith, lookup-place j k t es)

  length-place :
      (e : List ℕ × Topic B) (es : Dict (List ℕ) (Topic B)) → length (place e es) ≡ suc (length es)
  unfolding place
  length-place e [] = refl
  length-place e (f ∷ es) = ground (arith, length-place e es)

  place-NodupKeys :
      (k : List ℕ) (t : Topic B) (es : Dict (List ℕ) (Topic B))
      → Dict.lookup k es ≡ none
      → NodupKeys es
      → NodupKeys (place (k, t) es)
  unfolding place Dict.lookup
  place-NodupKeys k t [] h n = (refl, tt)
  place-NodupKeys k t ((i, u) ∷ es) h (fresh, n) =
      ground (arith, place-NodupKeys k t es, lookup-place i k t es, fresh, n, h)

  -- Sorting keeps the entries.
  sort_lem :
      (d : Dict (List ℕ) (Topic B))
      → NodupKeys d
      → NodupKeys (sort_by_last d)
        × (length (sort_by_last d) ≡ length d)
        × ((j : List ℕ) → Dict.lookup j (sort_by_last d) ≡ Dict.lookup j d)
  unfolding sort_by_last Dict.lookup
  sort_lem [] n = (tt, refl, λ j. refl)
  sort_lem ((k, t) ∷ d) (fresh, n) =
      let (n', len, same) = sort_lem d n in
      let fresh' = same k ∙ fresh in
      (
        place-NodupKeys k t (sort_by_last d) fresh' n',
        omega (arith, length-place (k, t) (sort_by_last d), len),
        λ j.
            lookup-place j k t (sort_by_last d) fresh'
            ∙ ap (λ o. if j == k then some t else o) (same j),
      )

  lookup-take :
      (n : ℕ) (k : List ℕ) (es : Dict (List ℕ) (Topic B))
      → Dict.lookup k es ≡ none
      → Dict.lookup k (take n es) ≡ none
  unfolding Dict.lookup
  lookup-take zero k es h = refl
  lookup-take (suc n) k [] h = refl
  lookup-take (suc n) k (e ∷ es) h = ground (arith, lookup-take n k es)

  take-NodupKeys : (n : ℕ) (es : Dict (List ℕ) (Topic B)) → NodupKeys es → NodupKeys (take n es)
  take-NodupKeys zero es h = tt
  take-NodupKeys (suc n) [] h = tt
  take-NodupKeys (suc n) ((k, t) ∷ es) (fresh, h) =
      (lookup-take n k es fresh, take-NodupKeys n es h)

  -- Entries with different keys that are all there are erased one by one.
  length-erase_each :
      (es topics : Dict (List ℕ) (Topic B))
      → NodupKeys es
      → NodupKeys topics
      → ((k : List ℕ) → Dict.lookup k topics ≡ none → Dict.lookup k es ≡ none)
      → length (erase_each es topics) + length es ≡ length topics
  unfolding erase_each Dict.lookup
  length-erase_each [] topics n m sub = omega arith
  length-erase_each ((k, t) ∷ es) topics (fresh, n) m sub =
      let there : Dict.lookup k topics ≢ none = λ gone. ground (arith, sub k gone, ==_refl k) in
      let rest =
        length-erase_each es (Dict.erase k topics) n (erase-NodupKeys k topics m)
          (λ j gone. ground (arith, gone, lookup-erase j k topics m, fresh, sub j)) in
      ground (arith, there, rest, length-erase k topics)

  erase_each-NodupKeys :
      (es topics : Dict (List ℕ) (Topic B)) → NodupKeys topics → NodupKeys (erase_each es topics)
  unfolding erase_each
  erase_each-NodupKeys [] topics n = n
  erase_each-NodupKeys ((k, t) ∷ es) topics n =
      erase_each-NodupKeys es (Dict.erase k topics) (erase-NodupKeys k topics n)

  erase_each-AllEntries :
      (ok : List ℕ → Topic B → Bool) (es topics : Dict (List ℕ) (Topic B))
      → AllEntries ok topics
      → AllEntries ok (erase_each es topics)
  unfolding erase_each
  erase_each-AllEntries ok [] topics h = h
  erase_each-AllEntries ok ((k, t) ∷ es) topics h =
      erase_each-AllEntries ok es (Dict.erase k topics) (erase-AllEntries ok k topics h)

  length-take : (n : ℕ) (es : Dict (List ℕ) (Topic B)) → n ≤ length es → length (take n es) ≡ n
  length-take zero es h = refl
  length-take (suc n) [] h = omega arith
  length-take (suc n) (e ∷ es) h = omega (arith, length-take n es (omega arith))

  -- The oldest topics beyond the number make room for the rest.
  erased_le :
      (max : ℕ) (topics : Dict (List ℕ) (Topic B))
      → NodupKeys topics
      → max ≤ length topics
      → length (erase_each (take (length topics - max) (sort_by_last topics)) topics) ≤ max
  erased_le max topics n over =
      let (n', len, same) = sort_lem topics n in
      let extra = length topics - max in
      let oldest = take extra (sort_by_last topics) in
      let all =
        length-erase_each oldest topics (take-NodupKeys extra (sort_by_last topics) n') n
          (λ k gone. lookup-take extra k (sort_by_last topics) (same k ∙ gone)) in
      omega (arith, all, len, length-take extra (sort_by_last topics))

  abbrev within : ℕ → List ℕ → Topic B → Bool
  within max topic t = leb (length t.msgs) max

  -- No topic has too many messages, and there are not too many topics.
  pub record IsBounded (ring : Ring B) : Type 0 where
    pub nodup : NodupKeys ring.topics
    pub each : AllEntries (within ring.max_per_topic) ring.topics
    pub count : length ring.topics ≤ ring.max_topics

  length-cap_msgs : (max : ℕ) (msgs : List (Kept B)) → length (cap_msgs max msgs) ≤ max
  unfolding cap_msgs
  length-cap_msgs max msgs = ground (arith, length-drop (length msgs - max) msgs)

  evict-IsBounded :
      (ring : Ring B)
      → NodupKeys ring.topics
      → AllEntries (within ring.max_per_topic) ring.topics
      → IsBounded (evict_topics_if_needed ring)
  unfolding evict_topics_if_needed
  evict-IsBounded ring n each = elim (Bool-cases (leb (length ring.topics) ring.max_topics)) [
    | inl few ↦ rw few (record { nodup = n; each = each; count = ground arith })
    | inr over ↦
        let oldest = take (length ring.topics - ring.max_topics) (sort_by_last ring.topics) in
        let few : length (erase_each oldest ring.topics) ≤ ring.max_topics =
          erased_le ring.max_topics ring.topics n (ground arith) in
        rw over (record {
          nodup = erase_each-NodupKeys oldest ring.topics n;
          each = erase_each-AllEntries (within ring.max_per_topic) oldest ring.topics each;
          count = few;
        })
  ]

  append-IsBounded :
      (ring : Ring B) (topic : List ℕ) (msg : Message B) (now : ℕ)
      → IsBounded ring
      → IsBounded (append ring topic msg now)
  unfolding append
  append-IsBounded ring topic msg now b =
      let old = prune ring now (msgs_of (Dict.lookup topic ring.topics)) in
      let msgs = cap_msgs ring.max_per_topic (old ++ (record { at = now; msg = msg } ∷ [])) in
      let t : Topic B = record { msgs = msgs; last = now } in
      let short : within ring.max_per_topic topic t ≡ true = ground (
        arith,
        length-cap_msgs ring.max_per_topic (old ++ (record { at = now; msg = msg } ∷ [])),
      ) in
      evict-IsBounded (record ring { topics = Dict.insert topic t ring.topics })
        (insert-NodupKeys topic t ring.topics b.nodup)
        (insert-AllEntries (within ring.max_per_topic) topic t ring.topics short b.each)

  length-shift_old :
      (cutoff : ℕ) (msgs : List (Kept B)) → length (shift_old cutoff msgs) ≤ length msgs
  unfolding shift_old
  length-shift_old cutoff [] = omega arith
  length-shift_old cutoff (r ∷ rs) = ground (arith, length-shift_old cutoff rs)

  since-IsBounded :
      (ring : Ring B) (topic from : List ℕ) (now : ℕ)
      → IsBounded ring
      → IsBounded (since ring topic from now).0
  unfolding since prune
  since-IsBounded ring topic from now b = elim (Option-cases (Dict.lookup topic ring.topics)) [
    | inl e ↦ rw (e, since) b
    | inr (t, e) ↦
        let t' : Topic B = record t { msgs = shift_old (now - ring.ttl_ms) t.msgs } in
        let held = lookup-AllEntries (within ring.max_per_topic) topic t ring.topics b.each e in
        let short : within ring.max_per_topic topic t' ≡ true =
          ground (arith, held, length-shift_old (now - ring.ttl_ms) t.msgs) in
        let count : length (Dict.insert topic t' ring.topics) ≤ ring.max_topics =
          ground (arith, length-insert topic t' ring.topics, e, b.count) in
        rw (e, since)
          (record {
            nodup = insert-NodupKeys topic t' ring.topics b.nodup;
            each = insert-AllEntries (within ring.max_per_topic) topic t' ring.topics short b.each;
            count = count;
          })
  ]

  unfoldable pub run : Ring B → List (Call B) → Ring B
  run ring [] = ring
  run ring (append_call topic msg now ∷ calls) = run (append ring topic msg now) calls
  run ring (since_call topic from now ∷ calls) = run (since ring topic from now).0 calls

  -- Whatever is published and read, the ring has at most its number of topics, each with at most
  -- its number of messages.
  pub run-IsBounded :
      (ring : Ring B) (calls : List (Call B)) → IsBounded ring → IsBounded (run ring calls)
  unfolding run
  run-IsBounded ring [] b = b
  run-IsBounded ring (append_call topic msg now ∷ calls) b =
      run-IsBounded (append ring topic msg now) calls (append-IsBounded ring topic msg now b)
  run-IsBounded ring (since_call topic from now ∷ calls) b =
      run-IsBounded (since ring topic from now).0 calls (since-IsBounded ring topic from now b)
