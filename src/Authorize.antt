-- ===== src/Authorize.antt =====
-- `authorize` of lib/server.js, which stands before every guarded event of a socket, with the policies of
-- realms that it asks. The requirement of a realm is read from the settings, keys and acceptance from the
-- options of the server, as the code does. A text that is missing is the empty one; the key hash of a realm
-- is what `RealmKeys.normalizeRealmConfig` leaves. Of a refusal the code is kept, not the wording.
pub mod Admission
pub mod Authentication
pub mod Sessions
use tyo_mq.Prelude.{
  ℕ, suc, String, Bool, true, false, Option, none, some, List, [], ◌∷◌, ◌&&◌, ◌||◌, not,
  if◌then◌else◌, ◌==◌, string_eq, contains,
}
use tyo_mq.Prelude.Dict
use tyo_mq.Prelude.Dict.{Dict}

-- The options of a realm; a flag that is no Boolean is missing.
pub record RealmConfig : Type 0 where
  pub require_key : Option Bool
  pub require_key_camel : Option Bool
  pub require_acceptance : Option Bool
  pub require_acceptance_camel : Option Bool
  pub key_hash : String

-- `settings.get('auth')`, with the flag `required` of each realm, and `authOptions.realms`.
pub record Policies : Type 0 where
  pub enabled : Bool
  pub settings_realms : Dict String (Option Bool)
  pub options_realms : Dict String RealmConfig

pub record Session : Type 0 where
  pub authenticated : Bool
  pub realm : String
  pub role : String

pub record Socket : Type 0 where
  pub session : Option Session
  pub pending_realm : String
  pub refusal : Option ℕ

default_flag : Option Bool → Bool → Bool
default_flag none fallback = fallback
default_flag (some flag) fallback = flag

flag_of : Option (Option Bool) → Bool
unfolding default_flag
flag_of none = true
flag_of (some flag) = default_flag flag true

-- `isAuthRequiredForRealm(realmId)`
unfoldable pub is_auth_required : Policies → String → Bool
unfolding flag_of
is_auth_required p realm =
    if not p.enabled
    then false
    else if realm == ""
    then true
    else flag_of (Dict.lookup realm p.settings_realms)

key_flag : Option RealmConfig → Bool
unfolding default_flag
key_flag none = false
key_flag (some rc) =
    default_flag rc.require_key (default_flag rc.require_key_camel (not (rc.key_hash == "")))

-- `isKeyRequiredForRealm(realmId)`
unfoldable pub is_key_required : Policies → String → Bool
unfolding key_flag
is_key_required p realm =
    if not p.enabled then false else key_flag (Dict.lookup realm p.options_realms)

acceptance_flag : Option RealmConfig → Bool → Bool
unfolding default_flag
acceptance_flag none fallback = fallback
acceptance_flag (some rc) fallback =
    default_flag rc.require_acceptance (default_flag rc.require_acceptance_camel fallback)

-- `isAcceptanceRequiredForRealm(realmId)`
unfoldable pub is_acceptance_required : Policies → String → Bool
unfolding acceptance_flag
is_acceptance_required p realm =
    if not p.enabled
    then false
    else acceptance_flag (Dict.lookup realm p.options_realms) (is_auth_required p realm)

normalize_role : String → String
normalize_role role = if role == "" then "both" else role

-- `roleAllows(role, allowed)`
unfoldable pub role_allows : String → List String → Bool
unfolding normalize_role
role_allows role allowed =
    let r = normalize_role role in
    if r == "admin" || r == "manager" || r == "both" then true else contains allowed r

admit : Socket → String → String → Socket
admit s realm role = record s {
  session = some (record { authenticated = true; realm = realm; role = role });
}

refuse : Socket → ℕ → Socket
refuse s code = record s { refusal = some code }

-- `roles.length === 1 && roles[0] === role`
is_only : List String → String → Bool
is_only [] role = false
is_only (r ∷ []) role = r == role
is_only (r ∷ next ∷ rs) role = false

-- `socket._pendingRealm || DEFAULT_REALM`
unfoldable pub desired_realm : Socket → String
desired_realm s = if s.pending_realm == "" then "default" else s.pending_realm

-- A socket without a session.
enter : Policies → Socket → List String → Socket × Bool
unfolding admit refuse is_only desired_realm
enter p s roles =
    let realm = desired_realm s in
    if not (is_auth_required p realm)
    then (admit s realm "both", true)
    else if is_only roles "consumer" && not (is_key_required p realm)
    then (admit s realm "consumer", true)
    else if is_only roles "producer" && not (is_acceptance_required p realm)
    then (admit s realm "producer", true)
    else (refuse s 401, false)

is_nil : List String → Bool
is_nil [] = true
is_nil (r ∷ rs) = false

-- A socket with a session.
recheck : Policies → Socket → Session → List String → Socket × Bool
unfolding refuse is_nil
recheck p s session roles =
    if not (is_auth_required p session.realm)
    then (s, true)
    else if not (is_nil roles) && not (role_allows session.role roles)
    then (refuse s 403, false)
    else (s, true)

unfoldable pub by_session : Policies → Socket → Option Session → List String → Socket × Bool
unfolding enter recheck
by_session p s none roles = enter p s roles
by_session p s (some session) roles =
    if session.authenticated then recheck p s session roles else enter p s roles

-- `authorize(eventName, roles)`
unfoldable pub authorize : Policies → Socket → List String → Socket × Bool
unfolding by_session
authorize p s roles = if not p.enabled then (s, true) else by_session p s s.session roles
