-- ===== src/Topics/Levels.antt =====
-- Matching decides the MQTT relation between patterns and topics.
use tyo_mq.Prelude.{
  ℕ, true, List, [], ◌∷◌, ◌++◌, ◌≡◌, ◌≢◌, ◌↔◌, ◌⊎◌, inl, inr, refl, ap, ◌∙◌, sym, ◌==◌, ==_refl,
  eq_of_==, nat_eq, codes_eq, arith, Bool-cases,
}
use tyo_mq.Topics.{hash, plus, push, split, match_levels, topic_matches}

-- When a pattern fits a topic, level by level.
pub data Matches : List (List ℕ) → List (List ℕ) → Type 0 where
  finished : Matches [] []
  any_rest : (p : List ℕ) (ps topic : List (List ℕ)) → p ≡ hash → ps ≡ [] → Matches (p ∷ ps) topic
  one_level :
      {p t : List ℕ} {ps ts : List (List ℕ)}
      → p ≢ hash
      → (p ≡ plus) ⊎ (p ≡ t)
      → Matches ps ts
      → Matches (p ∷ ps) (t ∷ ts)

match_levels_sound : (ps ts : List (List ℕ)) → match_levels ps ts ≡ true → Matches ps ts
unfolding match_levels
match_levels_sound [] [] h = finished
match_levels_sound [] (t ∷ ts) h = absurd (cc (h))
match_levels_sound (p ∷ ps) [] h = any_rest p ps [] (ground arith) (ground arith)
match_levels_sound (p ∷ ps) (t ∷ ts) h = elim (codes_eq.dec p hash) [
  | yes e ↦ any_rest p ps (t ∷ ts) e (ground arith)
  | no n ↦ one_level n (ground arith) (match_levels_sound ps ts (ground arith))
]

match_levels-hash :
    (p : List ℕ) (ps ts : List (List ℕ)) → p ≡ hash → ps ≡ [] → match_levels (p ∷ ps) ts ≡ true
unfolding match_levels
match_levels-hash p ps [] e e' = rw (e, e', ==_refl hash) refl
match_levels-hash p ps (t ∷ ts) e e' = rw (e, e', ==_refl hash) refl

match_levels_complete : (ps ts : List (List ℕ)) → Matches ps ts → match_levels ps ts ≡ true
unfolding match_levels
match_levels_complete [] [] m = refl
match_levels_complete ps ts (any_rest p qs topic e e') = match_levels-hash p qs ts e e'
match_levels_complete (p ∷ ps) (t ∷ ts) (one_level n choice m) =
    ground (arith, n, match_levels_complete ps ts m)

-- A pattern matches a topic exactly if both are the same text, or the levels of the pattern fit those
-- of the topic: '+' for one level, a last '#' for any number of levels, all else literally.
pub topic_matches_iff :
    (pattern topic : List ℕ)
    → (topic_matches pattern topic ≡ true)
      ↔ ((pattern ≡ topic) ⊎ Matches (split pattern) (split topic))
unfolding topic_matches
topic_matches_iff pattern topic = elim (codes_eq.dec pattern topic) [
  | yes e ↦ (λ h. inl e, λ m. rw (e, ==_refl topic) refl)
  | no n ↦ (
    λ h. inr (match_levels_sound (split pattern) (split topic) (ground (arith, n, h))),
    λ m. elim m [
      | inl e ↦ absurd (n e)
      | inr fits ↦ ground (arith, match_levels_complete (split pattern) (split topic) fits)
    ],
  )
]

-- `levels.join('/')`
join : List (List ℕ) → List ℕ
join [] = []
join (level ∷ []) = level
join (level ∷ next ∷ levels) = level ++ (b'/' ∷ join (next ∷ levels))

join-push :
    (c : ℕ) (level : List ℕ) (levels : List (List ℕ))
    → join (push c (level ∷ levels)) ≡ c ∷ join (level ∷ levels)
unfolding join push
join-push c level [] = refl
join-push c level (next ∷ levels) = refl

split-cons : (s : List ℕ) → (level : List ℕ) × (levels : List (List ℕ)) × (split s ≡ level ∷ levels)
unfolding split push
split-cons [] = ([], [], refl)
split-cons (c ∷ cs) =
    let (level, levels, e) = split-cons cs in
    elim (Bool-cases (c == b'/')) [
      | inl slash ↦ ([], split cs, rw slash refl)
      | inr other ↦ (c ∷ level, levels, rw (other, e) refl)
    ]

join-split : (s : List ℕ) → join (split s) ≡ s
unfolding split join
join-split [] = refl
join-split (c ∷ cs) =
    let (level, levels, e) = split-cons cs in
    let rest : join (level ∷ levels) ≡ cs = ap join (sym e) ∙ join-split cs in
    elim (Bool-cases (c == b'/')) [
      | inl slash ↦
          rw (slash, e) (ap (◌∷◌ b'/') rest ∙ ap (λ x. x ∷ cs) (sym (eq_of_== c b'/' slash)))
      | inr other ↦ rw (other, e) (join-push c level levels ∙ ap (◌∷◌ c) rest)
    ]

-- No level is a wildcard.
abbrev pub IsPlain : List (List ℕ) → Type 0
IsPlain [] = Unit
IsPlain (p ∷ ps) = (p ≢ hash) × (p ≢ plus) × IsPlain ps

Matches-plain : (ps ts : List (List ℕ)) → IsPlain ps → Matches ps ts → ps ≡ ts
Matches-plain [] [] plain finished = refl
Matches-plain ps ts plain (any_rest p qs topic e e') = absurd (plain.0 e)
Matches-plain (p ∷ ps) (t ∷ ts) plain (one_level n (inl e) m) = absurd (plain.1 e)
Matches-plain (p ∷ ps) (t ∷ ts) plain (one_level n (inr e) m) =
    let rest = Matches-plain ps ts plain.2 m in cc

-- A pattern without wildcards matches its own text only.
pub topic_matches_plain :
    (pattern topic : List ℕ)
    → IsPlain (split pattern)
    → (topic_matches pattern topic ≡ true) ↔ (pattern ≡ topic)
topic_matches_plain pattern topic plain = (
  λ h. elim ((topic_matches_iff pattern topic).0 h) [
    | inl e ↦ e
    | inr fits ↦
        sym (join-split pattern) ∙ ap join (Matches-plain _ _ plain fits) ∙ join-split topic
  ],
  λ e. (topic_matches_iff pattern topic).1 (inl e),
)
