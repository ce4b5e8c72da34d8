-- ===== src/Authorize/Admission.antt =====
-- What an authorized event tells about the session, and how sessions change.
use tyo_mq.Prelude.{
  String, Bool, true, false, Option, none, some, List, [], ◌∷◌, ◌≡◌, ◌⊎◌, inl, inr, refl, ap, ◌&&◌,
  not, if◌then◌else◌, eq_of_==, string_eq, arith, Bool-cases,
}
use tyo_mq.Authorize.{
  Policies, Session, Socket, is_auth_required, is_key_required, is_acceptance_required,
  normalize_role, role_allows, admit, refuse, is_only, desired_realm, enter, is_nil, recheck,
  by_session, authorize,
}

is_only_lem : (roles : List String) (role : String) → is_only roles role ≡ true → roles ≡ role ∷ []
unfolding is_only
is_only_lem [] role h = absurd (cc (h))
is_only_lem (r ∷ []) role h = ap (λ (x : String). x ∷ []) (eq_of_== r role h)
is_only_lem (r ∷ next ∷ rs) role h = absurd (cc (h))

role_fits_itself_consumer : role_allows "consumer" ("consumer" ∷ []) ≡ true
unfolding role_allows normalize_role string_eq
role_fits_itself_consumer = refl

role_fits_itself_producer : role_allows "producer" ("producer" ∷ []) ≡ true
unfolding role_allows normalize_role string_eq
role_fits_itself_producer = refl

-- The session is authenticated, and its realm is open or its role fits one of the roles, if there are any.
abbrev pub Admits : Policies → List String → Option Session → Type 0
Admits p roles none = ⊥
Admits p roles (some session) =
    (session.authenticated ≡ true)
    × ((is_auth_required p session.realm ≡ false)
        ⊎ (roles ≡ [])
        ⊎ (role_allows session.role roles ≡ true))

module _ (p : Policies) where
  enter-Admits :
      (s : Socket) (roles : List String)
      → (enter p s roles).1 ≡ true
      → Admits p roles (enter p s roles).0.session
  unfolding enter admit
  enter-Admits s roles h = elim (Bool-cases (is_auth_required p (desired_realm s))) [
    | inr e ↦ rw e (refl, inl e)
    | inl e ↦
        elim (Bool-cases (is_only roles "consumer" && not (is_key_required p (desired_realm s)))) [
          | inl f ↦
              let only = is_only_lem roles "consumer" (ground (arith, f)) in
              rw (e, f) (refl, inr (inr (rw only role_fits_itself_consumer)))
          | inr f ↦
              elim (Bool-cases
                (is_only roles "producer" && not (is_acceptance_required p (desired_realm s)))) [
                  | inl g ↦
                      let only = is_only_lem roles "producer" (ground (arith, g)) in
                      rw (e, f, g) (refl, inr (inr (rw only role_fits_itself_producer)))
                  | inr g ↦ absurd (ground (arith, e, f, g, h))
                ]
        ]
  ]

  recheck-Admits :
      (s : Socket) (session : Session) (roles : List String)
      → s.session ≡ some session
      → session.authenticated ≡ true
      → (recheck p s session roles).1 ≡ true
      → Admits p roles (recheck p s session roles).0.session
  unfolding recheck refuse is_nil
  recheck-Admits s session [] e a h = elim (Bool-cases (is_auth_required p session.realm)) [
    | inr f ↦ rw (f, e) (a, inl f)
    | inl f ↦ rw (f, e) (a, inr (inl refl))
  ]
  recheck-Admits s session (r ∷ rs) e a h = elim (Bool-cases (is_auth_required p session.realm)) [
    | inr f ↦ rw (f, e) (a, inl f)
    | inl f ↦ elim (Bool-cases (role_allows session.role (r ∷ rs))) [
      | inl g ↦ rw (f, g, e) (a, inr (inr g))
      | inr g ↦ absurd (ground (arith, f, g, h))
    ]
  ]

  pub authorize-by_session :
      (s : Socket) (roles : List String)
      → p.enabled ≡ true
      → authorize p s roles ≡ by_session p s s.session roles
  unfolding authorize
  authorize-by_session s roles on =
      ap (λ (b : Bool). if not b then (s, true) else by_session p s s.session roles) on

  by_session-Admits :
      (s : Socket) (held : Option Session) (roles : List String)
      → s.session ≡ held
      → (by_session p s held roles).1 ≡ true
      → Admits p roles (by_session p s held roles).0.session
  unfolding by_session
  by_session-Admits s none roles e h = enter-Admits s roles h
  by_session-Admits s (some session) roles e h = elim (Bool-cases session.authenticated) [
    | inl a ↦ simp a (recheck-Admits s session roles e a (simp a at h))
    | inr a ↦ simp a (enter-Admits s roles (simp a at h))
  ]

  -- With authentication switched on, an event that is let through leaves the socket with an authenticated session
  -- whose realm is open, or whose role is allowed to send the event.
  pub authorize-Admits :
      (s : Socket) (roles : List String)
      → p.enabled ≡ true
      → (authorize p s roles).1 ≡ true
      → Admits p roles (authorize p s roles).0.session
  authorize-Admits s roles on h =
      let e = authorize-by_session s roles on in
      rw e (by_session-Admits s s.session roles refl (rw e at h))
