-- ===== src/TokenRegistry/Register.antt =====
-- What registering an endpoint does.
use tyo_mq.Prelude.{
  ℕ, zero, suc, ◌-◌, ◌≤◌, String, false, some, List, [], ◌∷◌, ◌++◌, ◌≡◌, refl, ap, ◌∙◌, sym, inl,
  inr, length, length-append, leb, drop, In, ◌==◌, ==_refl, eq_of_==, string_eq, or_default, arith,
  Bool-cases, Option-cases, ◌&&◌,
}
use tyo_mq.Prelude.Dict
use tyo_mq.Prelude.Dict.{Dict}
use tyo_mq.TokenRegistry.{
  Endpoint, Given, TokenRegistry, entries_of, list_of, identity_map, touch_map, sweep_expired,
  surplus, refresh, new_endpoint, update_first, place_in, place, cap_identities, cap, register,
  list, same_endpoint,
}
use tyo_mq.TokenRegistry.Bounds.{entries_of-insert}

-- The endpoint is the given one, and stands in the list.
abbrev pub IsPlaced : Given → ℕ → Endpoint → List Endpoint → Type 0
IsPlaced ep now e es =
    In e es × (e.transport ≡ ep.transport) × (e.token ≡ ep.token) × (e.added_at ≡ now)

update_first-IsPlaced :
    (ep : Given) (now : ℕ) (es : List Endpoint) (e : Endpoint) (es' : List Endpoint)
    → update_first ep.transport ep.token (refresh ep now) es ≡ some (e, es')
    → IsPlaced ep now e es'
unfolding update_first refresh
update_first-IsPlaced ep now [] e es' h = absurd (cc (h))
update_first-IsPlaced ep now (x ∷ es) e es' h =
    elim (Bool-cases (same_endpoint ep.transport ep.token x)) [
      | inl s ↦
          let t : x.transport ≡ ep.transport = ground (arith, s) in
          let k : x.token ≡ ep.token = ground (arith, s) in ground (arith, s, h, t, k)
      | inr s ↦ elim (Option-cases (update_first ep.transport ep.token (refresh ep now) es)) [
        | inl u ↦ absurd (ground (arith, s, u, h))
        | inr ((y, ys), u) ↦
            let (i, t, k, a) = update_first-IsPlaced ep now es y ys u in
            ground (arith, s, u, h, i, t, k, a)
      ]
    ]

In-drop-append :
    (n : ℕ) (es : List Endpoint) (e : Endpoint) → n ≤ length es → In e (drop n (es ++ (e ∷ [])))
In-drop-append zero [] e le = inl refl
In-drop-append zero (x ∷ es) e le = inr (In-drop-append zero es e (omega arith))
In-drop-append (suc n) [] e le = absurd (omega (arith, le))
In-drop-append (suc n) (x ∷ es) e le = In-drop-append n es e (omega (arith, le))

place-IsPlaced :
    (most : ℕ) (ep : Given) (now : ℕ) (es : List Endpoint)
    → 1 ≤ most
    → IsPlaced ep now (place most ep now es).0 (place most ep now es).1
unfolding place place_in surplus new_endpoint
place-IsPlaced most ep now es le =
    elim (Option-cases (update_first ep.transport ep.token (refresh ep now) es)) [
      | inl u ↦
          let e = new_endpoint ep now in
          let fits : length (es ++ (e ∷ [])) - most ≤ length es =
            omega (arith, le, length-append es (e ∷ [])) in
          rw u (In-drop-append _ es e fits, refl, refl, refl)
      | inr ((e, es'), u) ↦ rw u (update_first-IsPlaced ep now es e es' u)
    ]

cap_identities-lookup :
    (realm identity : String) (n : ℕ) (m : Dict String (List Endpoint)) (tm : Dict String ℕ)
    → Dict.lookup identity (cap_identities realm identity n m tm).0 ≡ Dict.lookup identity m
unfolding cap_identities
cap_identities-lookup realm identity n m [] = refl
cap_identities-lookup realm identity n m ((oldest, ts) ∷ tm) =
    elim (Bool-cases (leb (length m) n)) [
      | inl e ↦ rw e refl
      | inr e ↦ elim (Bool-cases (oldest == identity)) [
        | inl g ↦ rw (e, g) refl
        | inr g ↦
            let other : (identity == oldest) ≡ false = ground (arith, g) in
            rw (e, g)
              (cap_identities-lookup realm identity n (Dict.erase oldest m) tm
                ∙ Dict.lookup-erase-false identity oldest m other)
      ]
    ]

cap-lookup :
    (r : TokenRegistry) (realm identity : String) (m : Dict String (List Endpoint))
    (tm : Dict String ℕ)
    → Dict.lookup identity (cap r realm identity m tm).0 ≡ Dict.lookup identity m
unfolding cap
cap-lookup r realm identity m tm = elim (Bool-cases (leb r.max_identities 0)) [
  | inl e ↦ rw e refl
  | inr e ↦ rw e (cap_identities-lookup realm identity r.max_identities m tm)
]

-- The list of the identity afterwards: the endpoint is placed in what the sweep has left, whatever identities
-- the cap evicts.
list-register :
    (r : TokenRegistry) (realm identity : String) (ep : Given) (clock : ℕ)
    → let now = or_default ep.now clock in
      list (register r realm identity ep clock).0 realm identity
      ≡ (place r.max_per_identity ep now (list (sweep_expired r realm now) realm identity)).1
unfolding register
list-register r realm identity ep clock =
    let now = or_default ep.now clock in
    let r' = sweep_expired r realm now in
    let m = identity_map r' realm in
    let es = (place r.max_per_identity ep now (list_of (Dict.lookup identity m))).1 in
    let m' = Dict.insert identity es m in
    let tm = Dict.erase identity (touch_map r' realm) ++ ((identity, now) ∷ []) in
    let capped = (cap r realm identity m' tm).0 in
    let at_realm : entries_of (Dict.lookup realm (Dict.insert realm capped r'.by_realm)) ≡ capped =
      entries_of-insert realm realm capped r'.by_realm ∙ rw (==_refl realm) refl in
    let at_identity : Dict.lookup identity m' ≡ some es =
      Dict.lookup-insert identity identity es m ∙ rw (==_refl identity) refl in
    ap (λ (d : Dict String (List Endpoint)). list_of (Dict.lookup identity d)) at_realm
    ∙ ap list_of (cap-lookup r realm identity m' tm)
    ∙ ap list_of at_identity

-- Whatever its registry holds, and whatever the sweep and the caps evict, an endpoint that was registered is in the list of its
-- identity, with the time of the call; it is the endpoint that the call returns.
pub register-IsPlaced :
    (r : TokenRegistry) (realm identity : String) (ep : Given) (clock : ℕ)
    → 1 ≤ r.max_per_identity
    → IsPlaced ep
        (or_default ep.now clock)
        (register r realm identity ep clock).1
        (list (register r realm identity ep clock).0 realm identity)
register-IsPlaced r realm identity ep clock le =
    let now = or_default ep.now clock in
    let es = list (sweep_expired r realm now) realm identity in
    rw (list-register r realm identity ep clock)
      (unfold register in place-IsPlaced r.max_per_identity ep now es le)

-- In a registry without idle time and without a cap on identities, registering leaves the endpoints of every other identity
-- and realm as they were.
pub list-register-false :
    (r : TokenRegistry) (realm identity realm' other : String) (ep : Given) (clock : ℕ)
    → r.ttl_ms ≡ 0
    → r.max_identities ≡ 0
    → ((realm' == realm) && (other == identity)) ≡ false
    → list (register r realm identity ep clock).0 realm' other ≡ list r realm' other
unfolding register sweep_expired cap
list-register-false r realm identity realm' other ep clock idle unbounded differs =
    let now = or_default ep.now clock in
    let m = identity_map r realm in
    let es = (place r.max_per_identity ep now (list_of (Dict.lookup identity m))).1 in
    let m' = Dict.insert identity es m in
    let outer = entries_of-insert realm' realm m' r.by_realm in
    let inner = Dict.lookup-insert other identity es m in
    rw (idle, unbounded)
      (rw outer (elim (Bool-cases (realm' == realm)) [
        | inr e ↦ rw e refl
        | inl e ↦
            let apart : (other == identity) ≡ false = ground (arith, e, differs) in
            let same = eq_of_== realm' realm e in
            rw e (rw (inner, apart) (ap (λ (x : String). list r x other) (sym same)))
      ]))
