-- ===== src/Tests/Directories.antt =====
-- Concrete runs of the prekey directory and of topic matching.
use text.Mathlib.TextEquality.{eq_iff}
use tyo_mq.Prelude.{
  ℕ, String, ◌≡◌, ◌↔◌, ◌⊎◌, refl, true, false, none, some, List, [], ◌∷◌, string_eq, nat_eq,
  codes_eq, arith, length, take, drop, map, ◌++◌, ◌-◌,
}
use tyo_mq.Prelude.Dict
use tyo_mq.Prekeys.{
  OneTime, Publish, publish, refused, published, Directory, clean, new_bundle, prekey_publish,
}
use tyo_mq.Prekeys.Pool.{takes, bundles_only, handed, Offers, takes_lem}
use tyo_mq.Prekeys.Refill.{Refuses, Accepts, prekey_publish_lem}
use tyo_mq.Prekeys.Bounds.{Call, publish_call, take_call}
use tyo_mq.Topics.{hash, split, topic_matches}
use tyo_mq.Topics.Levels.{Matches, IsPlain, topic_matches_iff}

abbrev request : Publish
request = record {
  identity = "alice";
  identity_key = "ik";
  registration_id = 1;
  device_id = 0;
  signed_prekey_id = 1;
  signed_prekey = "sp";
  signed_prekey_sig = "sig";
  kyber_prekey_id = 1;
  kyber_prekey = "kp";
  kyber_prekey_sig = "sig";
  one_time_prekeys =
      record { id = some 1; key = "a" }
      ∷ record { id = some 2; key = "b" }
      ∷ record { id = some 3; key = "c" }
      ∷ [];
}

abbrev renewed : Publish
renewed = record request {
  identity_key = "new";
  one_time_prekeys = record { id = some 9; key = "z" } ∷ [];
}

abbrev owned : List String
owned = "alice" ∷ []

abbrev stocked : Directory
stocked = (prekey_publish 10 2 64 [] owned (publish request) 5).0

pools_are_capped_and_renewed :
    ((prekey_publish 10 2 64 [] owned (publish request) 5).1 ≡ published 2)
    × ((prekey_publish 10 2 64 stocked owned (publish renewed) 6).1 ≡ published 1)
    × ((prekey_publish 2 2 64 [] owned (publish request) 5).1 ≡ refused 400)
    × ((prekey_publish 10 2 64 [] [] (publish request) 5).1 ≡ refused 403)
unfolding prekey_publish clean new_bundle Dict.lookup Dict.insert string_eq
pools_are_capped_and_renewed = (refl, refl, refl, refl)

abbrev pair : List OneTime
pair = record { id = 1; key = "a" } ∷ record { id = 2; key = "b" } ∷ []

stocked-Offers : Offers "alice" stocked pair
unfolding prekey_publish clean new_bundle Dict.lookup Dict.insert string_eq
stocked-Offers = (
  new_bundle 10 2 64 none request (record { id = 1; key = "a" } ∷ record { id = 2; key = "b" } ∷ [])
      5,
  refl,
  ground (arith, eq_iff "ik" ""),
  refl,
)

takes_lem_example :
    (map handed (takes 3 stocked "alice").1
      ≡ map (λ one. some (some one)) (take 3 pair) ++ bundles_only (3 - length pair))
    × Offers "alice" (takes 3 stocked "alice").0 (drop 3 pair)
takes_lem_example =
    takes_lem "alice" 3 stocked pair (ground (arith, eq_iff "alice" "")) stocked-Offers

prekey_publish_lem_example :
    Refuses 10 2 64 stocked (prekey_publish 10 2 64 stocked owned (publish renewed) 6)
    ⊎ Accepts 10 2 64 stocked owned renewed
        (prekey_publish 10 2 64 stocked owned (publish renewed) 6)
prekey_publish_lem_example = prekey_publish_lem 10 2 64 stocked owned renewed 6

abbrev history : List Call
history =
    publish_call owned (publish request) 5
    ∷ take_call "alice"
    ∷ publish_call owned (publish request) 6
    ∷ []

-- "a/+" and "a/b"
abbrev one_level : List ℕ
one_level = b'a' ∷ b'/' ∷ b'+' ∷ []

abbrev topic : List ℕ
topic = b'a' ∷ b'/' ∷ b'b' ∷ []

wildcards :
    (topic_matches one_level topic ≡ true)
    × (topic_matches hash topic ≡ true)
    × (topic_matches (b'a' ∷ b'/' ∷ b'#' ∷ []) (b'a' ∷ []) ≡ true)
    × (topic_matches one_level (b'a' ∷ []) ≡ false)
unfolding topic_matches split codes_eq nat_eq
wildcards = (refl, refl, refl, refl)

topic_matches_iff_example :
    (topic_matches one_level topic ≡ true)
    ↔ ((one_level ≡ topic) ⊎ Matches (split one_level) (split topic))
topic_matches_iff_example = topic_matches_iff one_level topic

topic-IsPlain : IsPlain (split topic)
unfolding split nat_eq
topic-IsPlain = ground arith
