-- ===== src/Tests/Guards.antt =====
-- Concrete events of sockets.
use tyo_mq.Prelude.{◌≡◌, refl, true, false, none, some, List, [], ◌∷◌, string_eq}
use tyo_mq.Prelude.Dict
use tyo_mq.Authorize.{
  Policies, Session, Socket, is_auth_required, is_key_required, is_acceptance_required, role_allows,
  authorize, desired_realm, by_session,
}
use tyo_mq.Authorize.Admission.{Admits, authorize-Admits}
use tyo_mq.Authorize.Sessions.{
  Event, guarded, authenticates, answers, step, run, run-session, authorize_first,
}
use tyo_mq.Authorize.Authentication.{Request, auth_fail, by_request, authentication, validated}

abbrev closed : Policies
closed = record { enabled = true; settings_realms = []; options_realms = [] }

-- Neither a key nor acceptance is asked for.
abbrev lenient : Policies
lenient = record {
  enabled = true;
  settings_realms = [];
  options_realms =
      (
        "default",
        record {
          require_key = some false;
          require_key_camel = none;
          require_acceptance = some false;
          require_acceptance_camel = none;
          key_hash = "";
        },
      )
      ∷ [];
}

abbrev guest : Socket
guest = record { session = none; pending_realm = ""; refusal = none }

abbrev bob : Session
bob = record { authenticated = true; realm = "default"; role = "consumer" }

abbrev member : Socket
member = record { session = some bob; pending_realm = ""; refusal = none }

guards :
    ((authorize closed guest ("producer" ∷ [])).1 ≡ false)
    × ((authorize closed guest ("consumer" ∷ [])).1 ≡ true)
    × ((authorize closed member ("producer" ∷ [])).0.refusal ≡ some 403)
    × ((authorize closed member ("producer" ∷ "consumer" ∷ [])).1 ≡ true)
unfolding authorize by_session desired_realm is_auth_required is_key_required is_acceptance_required
    role_allows Dict.lookup string_eq
guards = (refl, refl, refl, refl)

guest-allowed : (authorize closed guest ("consumer" ∷ [])).1 ≡ true
guest-allowed = guards.1

authorize-Admits_example :
    Admits closed ("consumer" ∷ []) (authorize closed guest ("consumer" ∷ [])).0.session
authorize-Admits_example = authorize-Admits closed guest ("consumer" ∷ []) refl guest-allowed

abbrev as_manager : Request
as_manager = record { realm = "r"; role = "manager"; has_token = false; has_key = false }

-- A manager needs a token.
no_manager : (authentication closed (λ realm. true) guest (some as_manager)).1 ≡ auth_fail 401
unfolding authentication by_request string_eq
no_manager = refl

-- The answer to an earlier token replaces the session.
late_answer :
    (step member (answers (some ("other", "both")))).session
    ≡ some (record { authenticated = true; realm = "other"; role = "both" })
unfolding step validated string_eq
late_answer = refl

abbrev events : List Event
events =
    guarded closed ("producer" ∷ [])
    ∷ authenticates closed (λ realm. true) (some as_manager)
    ∷ guarded lenient ("producer" ∷ [])
    ∷ guarded closed []
    ∷ []

run-session_example : (run member events).session ≡ some bob
run-session_example = run-session member bob events refl refl (refl, tt)

lenient-policies :
    (is_auth_required lenient (desired_realm guest) ≡ true)
    × (is_key_required lenient (desired_realm guest) ≡ false)
    × (is_acceptance_required lenient (desired_realm guest) ≡ false)
unfolding is_auth_required is_key_required is_acceptance_required desired_realm Dict.lookup
    string_eq
lenient-policies = (refl, refl, refl)

authorize_first_example :
    ((authorize lenient guest ("producer" ∷ [])).1 ≡ true)
    × ((authorize lenient guest ("consumer" ∷ [])).1 ≡ true)
    × ((authorize lenient (authorize lenient guest ("consumer" ∷ [])).0 ("producer" ∷ [])).1
        ≡ false)
authorize_first_example =
    authorize_first lenient guest refl refl lenient-policies.0 lenient-policies.1 lenient-policies.2
