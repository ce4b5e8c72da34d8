-- ===== src/RealmKeys.antt =====
-- lib/realm-keys.js and realmKeyAccepted of lib/server.js: the pre-shared keys of realms, held as hashes, with
-- the previous key for a time after a rotation. Texts are lists of character codes.
pub mod Rotation
pub mod Accepted
use tyo_mq.Prelude.{
  ℕ, ◌+◌, ◌*◌, Bool, true, false, Option, none, some, List, [], ◌∷◌, ◌++◌, ◌&&◌, ◌||◌, not, leb,
  ltb, min, if◌then◌else◌, ◌==◌, codes_eq, nat_eq, length,
}
use tyo_mq.Prelude.Dict.{Dict}
use tyo_mq.Prelude.Text.{codes}

-- A field of the settings: missing, a text, or another value that counts as true.
pub data Field : Type 0 where
  missing not_text : Field
  text_of : List ℕ → Field

-- Node's SHA-256 as hexadecimal digits, and Date.parse, with `none` for NaN.
pub record Platform : Type 0 where
  pub sha256_hex : List ℕ → List ℕ
  pub date_parse : Field → Option ℕ

pub record RealmConfig : Type 0 where
  pub key : Field
  pub preshared_key : Field
  pub preshared_key_camel : Field
  pub key_hash : Field
  pub previous_key_hash : Field
  pub previous_key_until : Field
  pub previous_manager_key : Field
  pub previous_manager_until : Field

-- A value that counts as true.
abbrev pub is_set : Field → Bool
is_set missing = false
is_set not_text = true
is_set (text_of []) = false
is_set (text_of (c ∷ cs)) = true

-- `a || b`
abbrev pub or_field : Field → Field → Field
or_field a b = if is_set a then a else b

-- HASH_PREFIX and HASH_DOMAIN
abbrev pub hash_prefix : List ℕ
hash_prefix = codes "sha256:"

abbrev pub hash_domain : List ℕ
hash_domain = codes "tyo-mq realm key v1" ++ (0 ∷ [])

abbrev pub max_grace_ms : ℕ
max_grace_ms = 30 * 24 * 60 * 60 * 1000

-- `value.indexOf(prefix) === 0`
unfoldable pub has_prefix : List ℕ → List ℕ → Bool
has_prefix [] value = true
has_prefix (p ∷ ps) [] = false
has_prefix (p ∷ ps) (c ∷ cs) = let rest = has_prefix ps cs in c == p && rest

-- `isRealmKeyHash`
unfoldable pub is_realm_key_hash : Field → Bool
is_realm_key_hash missing = false
is_realm_key_hash not_text = false
is_realm_key_hash (text_of value) =
    has_prefix hash_prefix value && length value == length hash_prefix + 64

-- `clampGraceMs`; `none` for what is not a positive finite number
unfoldable pub clamp_grace_ms : Option ℕ → Option ℕ
clamp_grace_ms none = none
clamp_grace_ms (some ms) = if ms == 0 then none else some (min ms max_grace_ms)

module _ (platform : Platform) where
  -- `hashRealmKey`
  unfoldable pub hash_realm_key : List ℕ → List ℕ
  hash_realm_key key = hash_prefix ++ platform.sha256_hex (hash_domain ++ key)

  abbrev pub same_text : Field → List ℕ → Bool
  same_text missing value = false
  same_text not_text value = false
  same_text (text_of stored) value = value == stored

  -- `realmKeyMatches`
  unfoldable pub realm_key_matches : List ℕ → Field → Bool
  realm_key_matches presented stored =
      if presented == [] || not (is_realm_key_hash stored)
      then false
      else same_text stored (hash_realm_key presented)

  abbrev pub later_than : Option ℕ → ℕ → Bool
  later_than none now = false
  later_than (some t) now = ltb now t

  -- `stillValid`
  unfoldable pub still_valid : Field → ℕ → Bool
  still_valid until now = later_than (platform.date_parse until) now

  abbrev is_missing : Field → Bool
  is_missing missing = true
  is_missing not_text = false
  is_missing (text_of value) = false

  -- A raw key is replaced by its hash.
  unfoldable pub hide_key : Field → RealmConfig → RealmConfig × Bool
  hide_key missing rc = (rc, false)
  hide_key not_text rc = (rc, false)
  hide_key (text_of []) rc = (rc, false)
  hide_key (text_of (c ∷ cs)) rc =
      let raw = c ∷ cs in
      (
        record rc {
          key_hash = text_of (if is_realm_key_hash (text_of raw) then raw else hash_realm_key raw);
          key = missing;
          preshared_key = missing;
          preshared_key_camel = missing;
        },
        true,
      )

  -- A previous secret is dropped: it is there, but empty or past its time.
  unfoldable pub lapsed : Field → Field → ℕ → Bool
  lapsed previous until now =
      not (is_missing previous) && not (is_set previous && still_valid until now)

  unfoldable pub drop_key : RealmConfig → ℕ → RealmConfig × Bool
  drop_key rc now =
      if lapsed rc.previous_key_hash rc.previous_key_until now
      then (record rc { previous_key_hash = missing; previous_key_until = missing }, true)
      else (rc, false)

  unfoldable pub drop_manager_key : RealmConfig → ℕ → RealmConfig × Bool
  drop_manager_key rc now =
      if lapsed rc.previous_manager_key rc.previous_manager_until now
      then (record rc { previous_manager_key = missing; previous_manager_until = missing }, true)
      else (rc, false)

  -- `rc.key || rc.preshared_key || rc.presharedKey`
  abbrev pub raw_key : RealmConfig → Field
  raw_key rc = or_field (or_field rc.key rc.preshared_key) rc.preshared_key_camel

  -- `normalizeRealmConfig`
  unfoldable pub normalize_realm_config : RealmConfig → ℕ → RealmConfig × Bool
  normalize_realm_config rc now =
      let (rc1, hidden) = hide_key (raw_key rc) rc in
      let (rc2, dropped) = drop_key rc1 now in
      let (rc3, dropped') = drop_manager_key rc2 now in (rc3, hidden || dropped || dropped')

  -- `normalizeRealms`
  unfoldable pub normalize_realms : Dict (List ℕ) RealmConfig → ℕ → Dict (List ℕ) RealmConfig × Bool
  normalize_realms [] now = ([], false)
  normalize_realms ((name, rc) ∷ realms) now =
      let (rc', here) = normalize_realm_config rc now in
      let (realms', rest) = normalize_realms realms now in ((name, rc') ∷ realms', here || rest)

  -- `getRealmPresharedKeyHash`
  unfoldable pub get_realm_preshared_key_hash : Option RealmConfig → ℕ → Option RealmConfig × Field
  get_realm_preshared_key_hash none now = (none, missing)
  get_realm_preshared_key_hash (some rc) now =
      let rc' = (normalize_realm_config rc now).0 in (some rc', or_field rc'.key_hash missing)

  -- `realmKeyAccepted`, with the configuration that it leaves. `now` is the reading of the clock in
  -- normalizeRealmConfig, `later` the one in stillValid.
  unfoldable pub realm_key_accepted :
      Option RealmConfig → ℕ → ℕ → List ℕ → Option RealmConfig × Bool
  realm_key_accepted none now later presented = (none, false)
  realm_key_accepted (some rc) now later presented =
      let rc' = (normalize_realm_config rc now).0 in
      (
        some rc',
        (if realm_key_matches presented rc'.key_hash
            then true
            else is_set rc'.previous_key_hash
              && still_valid rc'.previous_key_until later
              && realm_key_matches presented rc'.previous_key_hash),
      )
