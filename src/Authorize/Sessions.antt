-- ===== src/Authorize/Sessions.antt =====
-- How the session of a socket develops over events.
use tyo_mq.Prelude.{
  String, Bool, true, false, Option, none, some, List, [], ◌∷◌, ◌≡◌, ◌⊎◌, inl, inr, refl, ◌∙◌, ◌&&◌,
  not, string_eq, arith, Bool-cases,
}
use tyo_mq.Authorize.{
  Policies, Session, Socket, is_auth_required, is_key_required, is_acceptance_required,
  normalize_role, role_allows, admit, refuse, is_only, desired_realm, enter, is_nil, recheck,
  by_session, authorize,
}
use tyo_mq.Authorize.Authentication.{Request, is_authenticated, authentication, validated}
use tyo_mq.Authorize.Admission.{Admits, authorize-Admits, authorize-by_session}

recheck-Admits-true :
    (p : Policies) (s : Socket) (session : Session) (roles : List String)
    → (is_auth_required p session.realm ≡ false)
      ⊎ (roles ≡ [])
      ⊎ (role_allows session.role roles ≡ true)
    → recheck p s session roles ≡ (s, true)
unfolding recheck is_nil
recheck-Admits-true p s session roles (inl e) = rw e refl
recheck-Admits-true p s session roles (inr (inl e)) =
    rw e (elim (Bool-cases (is_auth_required p session.realm)) [
      | inl f ↦ rw f refl
      | inr f ↦ rw f refl
    ])
recheck-Admits-true p s session roles (inr (inr e)) =
    elim (Bool-cases (is_auth_required p session.realm)) [
      | inr f ↦ rw f refl
      | inl f ↦ elim (Bool-cases (is_nil roles)) [
        | inl g ↦ rw (f, g) refl
        | inr g ↦ rw (f, g, e) refl
      ]
    ]

by_session-Admits-true :
    (p : Policies) (s : Socket) (held : Option Session) (roles : List String)
    → Admits p roles held
    → by_session p s held roles ≡ (s, true)
unfolding by_session
by_session-Admits-true p s none roles h = elim h [ ]
by_session-Admits-true p s (some session) roles (a, h) =
    simp a (recheck-Admits-true p s session roles h)

-- An event that is let through is let through again as long as the policies stay, and the second time the socket
-- does not change.
pub authorize-authorize :
    (p : Policies) (s : Socket) (roles : List String)
    → p.enabled ≡ true
    → (authorize p s roles).1 ≡ true
    → authorize p (authorize p s roles).0 roles ≡ ((authorize p s roles).0, true)
authorize-authorize p s roles on h =
    let s' = (authorize p s roles).0 in
    authorize-by_session p s' roles on
    ∙ by_session-Admits-true p s' s'.session roles (authorize-Admits p s roles on h)

recheck-session :
    (p : Policies) (s : Socket) (session : Session) (roles : List String)
    → (recheck p s session roles).0.session ≡ s.session
unfolding recheck refuse
recheck-session p s session roles = elim (Bool-cases (is_auth_required p session.realm)) [
  | inr e ↦ rw e refl
  | inl e ↦ elim (Bool-cases (not (is_nil roles) && not (role_allows session.role roles))) [
    | inl f ↦ rw (e, f) refl
    | inr f ↦ rw (e, f) refl
  ]
]

by_session-session :
    (p : Policies) (s : Socket) (held : Option Session) (session : Session) (roles : List String)
    → held ≡ some session
    → session.authenticated ≡ true
    → (by_session p s held roles).0.session ≡ s.session
unfolding by_session
by_session-session p s none session roles e a = absurd (cc (e))
by_session-session p s (some x) session roles e a =
    let a' : x.authenticated ≡ true = ground (arith, e, a) in simp a' (recheck-session p s x roles)

authorize-session :
    (p : Policies) (s : Socket) (session : Session) (roles : List String)
    → s.session ≡ some session
    → session.authenticated ≡ true
    → (authorize p s roles).0.session ≡ some session
unfolding authorize
authorize-session p s session roles e a = elim (Bool-cases p.enabled) [
  | inr off ↦ simp off e
  | inl on ↦ simp on (by_session-session p s s.session session roles e a ∙ e)
]

authentication-session :
    (p : Policies) (opens : String → Bool) (s : Socket) (session : Session) (req : Option Request)
    → s.session ≡ some session
    → session.authenticated ≡ true
    → p.enabled ≡ true
    → (authentication p opens s req).0.session ≡ some session
unfolding authentication
authentication-session p opens s session none e a on = e
authentication-session p opens s session (some req) e a on =
    let held : is_authenticated s.session ≡ true = rw e a in rw (on, held) e

-- An event of a socket, under the policies of its time: one that authorize guards, AUTHENTICATION, or the
-- answer of validateToken to an earlier AUTHENTICATION.
pub data Event : Type 0 where
  guarded : Policies → List String → Event
  authenticates : Policies → (String → Bool) → Option Request → Event
  answers : Option (String × String) → Event

unfoldable pub step : Socket → Event → Socket
step s (guarded p roles) = (authorize p s roles).0
step s (authenticates p opens req) = (authentication p opens s req).0
step s (answers result) = (validated s result).0

unfoldable pub run : Socket → List Event → Socket
run s [] = s
run s (event ∷ events) = run (step s event) events

-- No validation is under way, and authentication is switched on whenever AUTHENTICATION arrives.
abbrev pub AllSettled : List Event → Type 0
AllSettled [] = Unit
AllSettled (guarded p roles ∷ events) = AllSettled events
AllSettled (authenticates p opens req ∷ events) = (p.enabled ≡ true) × AllSettled events
AllSettled (answers result ∷ events) = ⊥

-- No guarded event and no AUTHENTICATION changes the realm or the role of an authenticated session, let
-- through or not and even if the policies of realms change in between, as long as authentication is
-- switched on whenever AUTHENTICATION arrives and no validation of a token is under way.
pub run-session :
    (s : Socket) (session : Session) (events : List Event)
    → s.session ≡ some session
    → session.authenticated ≡ true
    → AllSettled events
    → (run s events).session ≡ some session
unfolding run step
run-session s session [] e a settled = e
run-session s session (guarded p roles ∷ events) e a settled =
    run-session (authorize p s roles).0 session events (authorize-session p s session roles e a) a
      settled
run-session s session (authenticates p opens req ∷ events) e a settled =
    run-session (authentication p opens s req).0 session events
      (authentication-session p opens s session req e a settled.0) a settled.1
run-session s session (answers result ∷ events) e a settled = absurd settled

producer_differs : role_allows "consumer" ("producer" ∷ []) ≡ false
unfolding role_allows normalize_role string_eq
producer_differs = refl

module _ (p : Policies) (s : Socket) where
  -- In a realm that requires authentication but neither a key nor acceptance, a socket without a session may produce, and may
  -- consume; but once it has consumed, it may not produce any more.
  pub authorize_first :
      p.enabled ≡ true
      → s.session ≡ none
      → is_auth_required p (desired_realm s) ≡ true
      → is_key_required p (desired_realm s) ≡ false
      → is_acceptance_required p (desired_realm s) ≡ false
      → ((authorize p s ("producer" ∷ [])).1 ≡ true)
        × ((authorize p s ("consumer" ∷ [])).1 ≡ true)
        × ((authorize p (authorize p s ("consumer" ∷ [])).0 ("producer" ∷ [])).1 ≡ false)
  unfolding authorize by_session enter recheck admit refuse is_only is_nil string_eq
  authorize_first on fresh required key acceptance =
      simp (on, fresh, required, key, acceptance, producer_differs) (refl, refl, refl)
