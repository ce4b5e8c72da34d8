-- ===== src/Topics.antt =====
-- `topicMatches` of lib/server.js: MQTT-style patterns over the levels of an event name.
pub mod Levels
use tyo_mq.Prelude.{
  ℕ, Bool, true, false, List, [], ◌∷◌, ◌||◌, if◌then◌else◌, ◌==◌, nat_eq, codes_eq,
}

-- '#', which stands for any number of levels at the end, and '+', which stands for one level.
abbrev pub hash : List ℕ
hash = b'#' ∷ []

abbrev pub plus : List ℕ
plus = b'+' ∷ []

-- Puts a character at the front of the first level.
push : ℕ → List (List ℕ) → List (List ℕ)
push c [] = (c ∷ []) ∷ []
push c (level ∷ levels) = (c ∷ level) ∷ levels

-- `text.split('/')`
unfoldable pub split : List ℕ → List (List ℕ)
unfolding push
split [] = [] ∷ []
split (c ∷ cs) = let rest = split cs in if c == b'/' then [] ∷ rest else push c rest

abbrev is_nil : List (List ℕ) → Bool
is_nil [] = true
is_nil (level ∷ levels) = false

-- The loop over the levels of the pattern, on what is left of both.
match_levels : List (List ℕ) → List (List ℕ) → Bool
match_levels [] topic = is_nil topic
match_levels (p ∷ ps) [] = if p == hash then is_nil ps else false
match_levels (p ∷ ps) (t ∷ ts) =
    let rest = match_levels ps ts in
    if p == hash then is_nil ps else if p == plus || p == t then rest else false

unfoldable pub topic_matches : List ℕ → List ℕ → Bool
unfolding split match_levels
topic_matches pattern topic =
    if pattern == topic then true else match_levels (split pattern) (split topic)
