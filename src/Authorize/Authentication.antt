-- ===== src/Authorize/Authentication.antt =====
-- The handler AUTHENTICATION of lib/server.js, up to the call of validateToken, and what is done with its
-- answer, which comes later. The identity that a token binds and the creation of the realm are left out.
use tyo_mq.Prelude.{
  ℕ, String, Bool, false, Option, none, some, List, [], ◌∷◌, ◌&&◌, ◌||◌, not, if◌then◌else◌, ◌==◌,
  string_eq, contains,
}
use tyo_mq.Authorize.{
  Policies, Session, Socket, is_auth_required, is_key_required, is_acceptance_required,
  normalize_role, admit,
}

-- The payload. A missing realm or role is the empty text.
pub record Request : Type 0 where
  pub realm : String
  pub role : String
  pub has_token : Bool
  pub has_key : Bool

-- AUTH_OK, AUTH_FAIL, or none before validateToken answers.
pub data Reply : Type 0 where
  auth_ok : (realm role : String) → Reply
  auth_fail : ℕ → Reply
  validating : Reply

-- CONNECT_ROLES
abbrev connect_roles : List String
connect_roles = "producer" ∷ "consumer" ∷ "both" ∷ []

-- The declared role if it is one that a client may declare, and else both.
abbrev pub connect_role : String → String
connect_role role = if contains connect_roles role then role else "both"

abbrev pub or_default_realm : String → String
or_default_realm realm = if realm == "" then "default" else realm

abbrev pend : Socket → String → Socket
pend s realm = if realm == "" then s else record s { pending_realm = realm }

abbrev pub is_authenticated : Option Session → Bool
is_authenticated none = false
is_authenticated (some session) = session.authenticated

-- The connection with a declared role and no token; `opens` is realmKeyAccepted for the key that was sent.
unfoldable pub connect : Policies → (String → Bool) → Socket → String → String → Socket × Reply
unfolding admit
connect p opens s realm role =
    if (role == "consumer" || role == "both") && is_key_required p realm && not (opens realm)
    then (s, auth_fail 401)
    else if (role == "producer" || role == "both") && is_acceptance_required p realm
    then (s, auth_fail 403)
    else (admit s realm role, auth_ok realm role)

-- The part for a socket that is not authenticated.
unfoldable pub by_request : Policies → (String → Bool) → Socket → Request → Socket × Reply
unfolding admit
by_request p opens s req =
    if req.has_token
    then (s, validating)
    else if req.role == "manager"
    then (s, auth_fail 401)
    else if not (req.realm == "") && not (is_auth_required p req.realm)
    then (admit s req.realm (connect_role req.role), auth_ok req.realm (connect_role req.role))
    else if not (req.role == "") || req.has_key
    then connect p opens s (or_default_realm req.realm) (connect_role req.role)
    else (s, auth_fail 401)

-- AUTHENTICATION; `none` is a payload that is no JSON.
unfoldable pub authentication :
    Policies → (String → Bool) → Socket → Option Request → Socket × Reply
unfolding admit
authentication p opens s none = (s, auth_fail 401)
authentication p opens s (some req) =
    if not p.enabled
    then (admit s "default" "both", auth_ok "default" "both")
    else if is_authenticated s.session
    then (s, auth_fail 403)
    else by_request p opens (pend s req.realm) req

-- The answer of validateToken: the realm and the role of the token, or none.
unfoldable pub validated : Socket → Option (String × String) → Socket × Reply
unfolding admit normalize_role
validated s none = (s, auth_fail 401)
validated s (some (realm, role)) =
    if realm == "" || role == ""
    then (s, auth_fail 401)
    else (admit s realm (normalize_role role), auth_ok realm (normalize_role role))
