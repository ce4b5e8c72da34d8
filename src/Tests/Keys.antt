-- ===== src/Tests/Keys.antt =====
-- A realm whose key was rotated.
use tyo_mq.Prelude.{
  ℕ, zero, suc, ◌≡◌, ◌⊎◌, ◌↔◌, inl, refl, true, false, some, List, [], ◌∷◌, codes_eq, nat_eq, arith,
}
use tyo_mq.Prelude.Text.{codes}
use tyo_mq.RealmKeys.{
  missing, not_text, text_of, Platform, RealmConfig, has_prefix, is_realm_key_hash, hash_realm_key,
  realm_key_matches, still_valid, hide_key, lapsed, drop_key, drop_manager_key,
  normalize_realm_config, realm_key_accepted,
}
use tyo_mq.RealmKeys.Accepted.{Use, after, realm_key_accepted_lem}

abbrev copies : ℕ → ℕ → List ℕ
copies zero c = []
copies (suc n) c = c ∷ copies n c

abbrev last_of : ℕ → List ℕ → ℕ
last_of c [] = c
last_of c (d ∷ cs) = last_of d cs

-- A stand-in for SHA-256 that tells keys apart by their last character.
abbrev platform : Platform
platform = record { sha256_hex = λ x. copies 64 (last_of 0 x); date_parse = λ until. some 100 }

-- The key is "b", and was "a" until the time 100.
abbrev rotated : RealmConfig
rotated = record {
  key = text_of (codes "b");
  preshared_key = missing;
  preshared_key_camel = missing;
  key_hash = missing;
  previous_key_hash = text_of (hash_realm_key platform (codes "a"));
  previous_key_until = not_text;
  previous_manager_key = missing;
  previous_manager_until = missing;
}

in_grace :
    ((realm_key_accepted platform (some rotated) 99 99 (codes "b")).1 ≡ true)
    × ((realm_key_accepted platform (some rotated) 99 99 (codes "a")).1 ≡ true)
    × ((realm_key_accepted platform (some rotated) 99 100 (codes "a")).1 ≡ false)
unfolding realm_key_accepted normalize_realm_config hide_key drop_key drop_manager_key lapsed
    still_valid realm_key_matches is_realm_key_hash has_prefix hash_realm_key codes_eq nat_eq
in_grace = (refl, refl, refl)

raw_b : is_realm_key_hash (text_of (codes "b")) ≡ false
unfolding is_realm_key_hash has_prefix nat_eq
raw_b = refl

abbrev uses : List Use
uses =
    record { now = 90; later = 90; presented = codes "b" }
    ∷ record { now = 95; later = 96; presented = codes "a" }
    ∷ []

realm_key_accepted_lem_example :
    (realm_key_accepted platform (after platform (some rotated) uses) 99 99 (codes "a")).1 ≡ true
    ↔ ((codes "a" ≡ codes "b")
        ⊎ ((rotated.previous_key_hash ≡ text_of (hash_realm_key platform (codes "a")))
            × (still_valid platform rotated.previous_key_until 99 ≡ true)))
realm_key_accepted_lem_example =
    realm_key_accepted_lem platform (codes "b") rotated uses 99 99 (codes "a")
      (inl (refl, ground arith, raw_b)) (omega arith, (omega arith, tt)) (omega arith)
      (ground arith) refl (λ e. absurd (ground (arith, e)))
