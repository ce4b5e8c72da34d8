-- ===== src/TokenRegistry/Bounds.antt =====
-- No identity has more endpoints than the cap.
use tyo_mq.Prelude.{
  ℕ, ◌+◌, ◌-◌, ◌≤◌, String, Bool, some, List, [], ◌∷◌, ◌≡◌, inl, inr, length, leb, ltb, drop,
  length-drop, if◌then◌else◌, ◌==◌, string_eq, arith, Bool-cases, Option-cases,
}
use tyo_mq.Prelude.Dict
use tyo_mq.Prelude.Dict.{Dict, AllEntries, insert-AllEntries, erase-AllEntries, lookup-AllEntries}
use tyo_mq.TokenRegistry.{
  Endpoint, Given, entries_of, sweep_identities, surplus, refresh, update_first, place_in, place,
  cap_identities, same_endpoint,
}

-- The map of a realm after a realm's map is set.
pub entries_of-insert :
    {V : Type 0} (j realm : String) (m : Dict String V) (d : Dict String (Dict String V))
    → entries_of (Dict.lookup j (Dict.insert realm m d))
      ≡ (if j == realm then m else entries_of (Dict.lookup j d))
entries_of-insert j realm m d = ground (arith, Dict.lookup-insert j realm m d)

pub length-surplus-le : (most : ℕ) (es : List Endpoint) → length (drop (surplus most es) es) ≤ most
unfolding surplus
length-surplus-le most es = omega (arith, length-drop (length es - most) es)

module _ (most : ℕ) where
  abbrev pub fits : String → List Endpoint → Bool
  fits identity es = leb (length es) most

  abbrev pub Fits : Dict String (List Endpoint) → Type 0
  Fits m = AllEntries fits m

  -- Every list of every realm is within the cap.
  abbrev pub IsBounded : Dict String (Dict String (List Endpoint)) → Type 0
  IsBounded d = (realm : String) → Fits (entries_of (Dict.lookup realm d))

  pub insert-IsBounded :
      (realm : String) (m : Dict String (List Endpoint))
      (d : Dict String (Dict String (List Endpoint)))
      → Fits m
      → IsBounded d
      → IsBounded (Dict.insert realm m d)
  insert-IsBounded realm m d f b j =
      rw (entries_of-insert j realm m d)
        (elim (Bool-cases (j == realm)) [ inl e ↦ rw e f | inr e ↦ rw e (b j) ])

  pub sweep_identities-Fits :
      (ttl now : ℕ) (tm : Dict String ℕ) (m : Dict String (List Endpoint))
      → Fits m
      → Fits (sweep_identities ttl now tm m)
  unfolding sweep_identities
  sweep_identities-Fits ttl now [] m f = f
  sweep_identities-Fits ttl now ((identity, ts) ∷ tm) m f = elim (Bool-cases (ltb (ts + ttl) now)) [
    | inl e ↦ rw e (
        sweep_identities-Fits ttl now tm (Dict.erase identity m)
          (erase-AllEntries fits identity m f))
    | inr e ↦ rw e (sweep_identities-Fits ttl now tm m f)
  ]

  pub cap_identities-Fits :
      (realm identity : String) (n : ℕ) (m : Dict String (List Endpoint)) (tm : Dict String ℕ)
      → Fits m
      → Fits (cap_identities realm identity n m tm).0
  unfolding cap_identities
  cap_identities-Fits realm identity n m [] f = f
  cap_identities-Fits realm identity n m ((oldest, ts) ∷ tm) f =
      let erased = erase-AllEntries fits oldest m f in
      let ih = cap_identities-Fits realm identity n (Dict.erase oldest m) tm erased in
      elim (Bool-cases (leb (length m) n)) [
        | inl e ↦ rw e f
        | inr e ↦ elim (Bool-cases (oldest == identity)) [
          | inl g ↦ rw (e, g) f
          | inr g ↦ rw (e, g) ih
        ]
      ]

length-update_first :
    (transport token : String) (change : Endpoint → Endpoint) (es : List Endpoint) (e : Endpoint)
    (es' : List Endpoint)
    → update_first transport token change es ≡ some (e, es')
    → length es' ≡ length es
unfolding update_first
length-update_first transport token change [] e es' h = absurd (cc (h))
length-update_first transport token change (x ∷ es) e es' h =
    elim (Bool-cases (same_endpoint transport token x)) [
      | inl s ↦ ground (arith, s, h)
      | inr s ↦ elim (Option-cases (update_first transport token change es)) [
        | inl u ↦ ground (arith, s, u, h)
        | inr ((y, ys), u) ↦
            let ih = length-update_first transport token change es y ys u in
            ground (arith, s, u, h, ih)
      ]
    ]

pub length-place-le :
    (most : ℕ) (ep : Given) (now : ℕ) (es : List Endpoint)
    → length es ≤ most
    → length (place most ep now es).1 ≤ most
unfolding place place_in
length-place-le most ep now es le =
    elim (Option-cases (update_first ep.transport ep.token (refresh ep now) es)) [
      | inl u ↦ rw u (length-surplus-le most _)
      | inr ((e, es'), u) ↦
          rw u (
            omega
              (arith, le, length-update_first ep.transport ep.token (refresh ep now) es e es' u))
    ]
