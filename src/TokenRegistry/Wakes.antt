-- ===== src/TokenRegistry/Wakes.antt =====
-- Wakes of an identity are spaced.
use tyo_mq.Prelude.{
  ℕ, ◌+◌, ◌≤◌, ◌<◌, String, true, false, Option, none, some, List, [], ◌∷◌, ◌≡◌, ◌&&◌, not, length,
  filter, refl, ◌∙◌, inl, inr, leb, if◌then◌else◌, ◌==◌, ==_refl, eq_of_==, string_eq, or_default,
  arith, Bool-cases, Option-cases,
}
use tyo_mq.Prelude.Dict
use tyo_mq.Prelude.Dict.{Dict}
use tyo_mq.TokenRegistry.{
  Given, TokenRegistry, entries_of, sweep_expired, register, forget, unregister, mark_list, mark_ok,
  identity_map, same_endpoint,
}
use tyo_mq.TokenRegistry.Coalesce.{wake_map, is_recent, coalesce_ok, reset_coalesce}
use tyo_mq.TokenRegistry.Bounds.{entries_of-insert}
use tyo_mq.TokenRegistry.Calls.{
  Call, register_call, unregister_call, mark_ok_call, coalesce_call, reset_call, step, run,
}

-- When the identity was last woken.
abbrev last_of : TokenRegistry → String → String → Option ℕ
last_of r realm identity = Dict.lookup identity (wake_map r realm)

abbrev IsSince : ℕ → Option ℕ → Type 0
IsSince since none = ⊥
IsSince since (some last) = since ≤ last

-- No call for a wake goes back before this time, and none resets the identity.
module _ (realm identity : String) (since : ℕ) where
  abbrev pub Later : List Call → Type 0
  Later [] = Unit
  Later (register_call of by ep clock ∷ cs) = Later cs
  Later (unregister_call of by ep ∷ cs) = Later cs
  Later (mark_ok_call of by ep now clock ∷ cs) = Later cs
  Later (coalesce_call of by now window clock ∷ cs) = (since ≤ or_default now clock) × Later cs
  Later (reset_call of by ∷ cs) = (((of == realm) && (by == identity)) ≡ false) × Later cs

  sweep-last_wake :
      (r : TokenRegistry) (of : String) (now : ℕ) → (sweep_expired r of now).last_wake ≡ r.last_wake
  unfolding sweep_expired
  sweep-last_wake r of now = elim (Bool-cases (leb r.ttl_ms 0)) [
    | inl e ↦ rw e refl
    | inr e ↦ rw e refl
  ]

  unregister-last_wake :
      (r : TokenRegistry) (of by : String) (ep : Given)
      → (unregister r of by ep).0.last_wake ≡ r.last_wake
  unfolding unregister forget
  unregister-last_wake r of by ep = elim (Option-cases (Dict.lookup by (identity_map r of))) [
    | inl e ↦ rw e refl
    | inr (es, e) ↦
        rw e
          (elim (Bool-cases
            (leb (length (filter (λ x. not (same_endpoint ep.transport ep.token x)) es)) 0)) [
              | inl f ↦ rw f refl
              | inr f ↦ rw f refl
            ])
  ]

  mark_ok-last_wake :
      (r : TokenRegistry) (of by : String) (ep : Given) (now : Option ℕ) (clock : ℕ)
      → (mark_ok r of by ep now clock).last_wake ≡ r.last_wake
  unfolding mark_ok mark_list
  mark_ok-last_wake r of by ep now clock =
      elim (Option-cases (Dict.lookup by (identity_map r of))) [
        | inl e ↦ rw e refl
        | inr (es, e) ↦ rw e refl
      ]

  register-last_wake :
      (r : TokenRegistry) (of by : String) (ep : Given) (clock : ℕ)
      → (register r of by ep clock).0.last_wake ≡ r.last_wake
  unfolding register
  register-last_wake r of by ep clock = sweep-last_wake r of (or_default ep.now clock)

  -- The time of the last wake, looked up in the maps.
  abbrev at : Dict String (Dict String ℕ) → Option ℕ
  at d = Dict.lookup identity (entries_of (Dict.lookup realm d))

  at-insert :
      (of by : String) (now : ℕ) (d : Dict String (Dict String ℕ))
      → at (Dict.insert of (Dict.insert by now (entries_of (Dict.lookup of d))) d)
        ≡ (if (realm == of) && (identity == by) then some now else at d)
  at-insert of by now d =
      rw (entries_of-insert realm of (Dict.insert by now (entries_of (Dict.lookup of d))) d)
        (elim (Bool-cases (realm == of)) [
          | inr e ↦ rw e refl
          | inl e ↦
              let same = eq_of_== realm of e in
              rw e (
                Dict.lookup-insert identity by now (entries_of (Dict.lookup of d))
                ∙ rw (← same) refl)
        ])

  at-erase :
      (of by : String) (d : Dict String (Dict String ℕ))
      → ((of == realm) && (by == identity)) ≡ false
      → at (Dict.insert of (Dict.erase by (entries_of (Dict.lookup of d))) d) ≡ at d
  at-erase of by d apart =
      rw (entries_of-insert realm of (Dict.erase by (entries_of (Dict.lookup of d))) d)
        (elim (Bool-cases (realm == of)) [
          | inr e ↦ rw e refl
          | inl e ↦
              let same = eq_of_== realm of e in
              let other : (identity == by) ≡ false = ground (arith, apart, same) in
              rw (e, ← same)
                (Dict.lookup-erase-false identity by (entries_of (Dict.lookup realm d)) other)
        ])

  coalesce-IsSince :
      (r : TokenRegistry) (of by : String) (now window : Option ℕ) (clock : ℕ)
      → since ≤ or_default now clock
      → IsSince since (last_of r realm identity)
      → IsSince since (last_of (coalesce_ok r of by now window clock).0 realm identity)
  unfolding coalesce_ok
  coalesce-IsSince r of by now window clock le h =
      let recent =
        is_recent (Dict.lookup by (wake_map r of)) (or_default now clock)
          (or_default window r.coalesce_window_ms) in
      elim (Bool-cases recent) [
        | inl e ↦ rw e h
        | inr e ↦ rw e (
            rw (at-insert of by (or_default now clock) r.last_wake)
              (elim (Bool-cases ((realm == of) && (identity == by))) [
                | inl f ↦ rw f le
                | inr f ↦ rw f h
              ]))
      ]

  run-IsSince :
      (r : TokenRegistry) (cs : List Call)
      → Later cs
      → IsSince since (last_of r realm identity)
      → IsSince since (last_of (run r cs) realm identity)
  unfolding run step reset_coalesce
  run-IsSince r [] l h = h
  run-IsSince r (register_call of by ep clock ∷ cs) l h =
      run-IsSince (register r of by ep clock).0 cs l (rw (register-last_wake r of by ep clock) h)
  run-IsSince r (unregister_call of by ep ∷ cs) l h =
      run-IsSince (unregister r of by ep).0 cs l (rw (unregister-last_wake r of by ep) h)
  run-IsSince r (mark_ok_call of by ep now clock ∷ cs) l h =
      run-IsSince (mark_ok r of by ep now clock) cs l
        (rw (mark_ok-last_wake r of by ep now clock) h)
  run-IsSince r (coalesce_call of by now window clock ∷ cs) (le, l) h =
      run-IsSince (coalesce_ok r of by now window clock).0 cs l
        (coalesce-IsSince r of by now window clock le h)
  run-IsSince r (reset_call of by ∷ cs) (apart, l) h =
      run-IsSince (reset_coalesce r of by) cs l (rw (at-erase of by r.last_wake apart) h)

module _ (r : TokenRegistry) (realm identity : String) (now window now' window' : Option ℕ)
    (clock clock' : ℕ) where
  woken-IsSince :
      (coalesce_ok r realm identity now window clock).1 ≡ true
      → IsSince
          (or_default now clock)
          (last_of (coalesce_ok r realm identity now window clock).0 realm identity)
  unfolding coalesce_ok
  woken-IsSince h =
      let recent =
        is_recent (Dict.lookup identity (wake_map r realm)) (or_default now clock)
          (or_default window r.coalesce_window_ms) in
      elim (Bool-cases recent) [
        | inl e ↦ absurd (ground (arith, e, h))
        | inr e ↦ rw e (
            rw
              (
                at-insert realm identity (or_default now clock) realm identity
                    (or_default now clock) r.last_wake,
                ==_refl realm,
                ==_refl identity,
              )
              (omega arith))
      ]

  recent-IsSince :
      (q : TokenRegistry)
      → or_default now' clock' < or_default now clock + or_default window' q.coalesce_window_ms
      → IsSince (or_default now clock) (last_of q realm identity)
      → (coalesce_ok q realm identity now' window' clock').1 ≡ false
  unfolding coalesce_ok is_recent
  recent-IsSince q soon h = elim (Option-cases (last_of q realm identity)) [
    | inl e ↦ absurd (ground (arith, e, h))
    | inr (last, e) ↦ ground (arith, e, h, soon)
  ]

  -- After an allowed wake, and any calls of which none resets the identity or goes back in time for a wake, no other wake of the
  -- identity is allowed within the window.
  pub coalesce_ok-coalesce_ok :
      (cs : List Call)
      → (coalesce_ok r realm identity now window clock).1 ≡ true
      → Later realm identity (or_default now clock) cs
      → let q = run (coalesce_ok r realm identity now window clock).0 cs in
        or_default now' clock' < or_default now clock + or_default window' q.coalesce_window_ms
        → (coalesce_ok q realm identity now' window' clock').1 ≡ false
  coalesce_ok-coalesce_ok cs allowed later soon =
      recent-IsSince (run (coalesce_ok r realm identity now window clock).0 cs) soon (
        run-IsSince realm identity (or_default now clock)
          (coalesce_ok r realm identity now window clock).0 cs later (woken-IsSince allowed))
