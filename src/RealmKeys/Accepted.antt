-- ===== src/RealmKeys/Accepted.antt =====
-- A key opens its realm while it is the current one or in its grace time.
use tyo_mq.Prelude.{
  ℕ, ◌≤◌, ltb, Option, Option-cases, ◌≡◌, ◌≢◌, ◌⊎◌, ◌↔◌, refl, ap, sym, ◌∙◌, Bool, true, false,
  some, List, [], ◌∷◌, ◌++◌, ◌&&◌, if◌then◌else◌, ◌==◌, eq_of_==, codes_eq, nat_eq, length, arith,
  Bool-cases, inl, inr,
}
use tyo_mq.RealmKeys.{
  Field, missing, not_text, text_of, Platform, RealmConfig, is_set, hash_domain, has_prefix,
  is_realm_key_hash, hash_realm_key, realm_key_matches, still_valid, hide_key, lapsed, drop_key,
  drop_manager_key, raw_key, normalize_realm_config, realm_key_accepted,
}
use tyo_mq.RealmKeys.Rotation.{
  settled, hide_settled, settled-hide_key, raw_key-drop_key, raw_key-drop_manager_key,
}

accepted_else : (a b : Bool) → a ≡ false → (if a then true else b) ≡ true → b ≡ true
accepted_else a b h h' = ground (arith, h, h')

accepted_first : (a b : Bool) → a ≡ true → (if a then true else b) ≡ true
accepted_first a b h = ground (arith, h)

accepted_second : (a b : Bool) → b ≡ true → (if a then true else b) ≡ true
accepted_second a b h = ground (arith, h)

-- A presented key, with the two readings of the clock.
pub record Use : Type 0 where
  pub now : ℕ
  pub later : ℕ
  pub presented : List ℕ

abbrev pub AllBefore : ℕ → List Use → Type 0
AllBefore limit [] = Unit
AllBefore limit (u ∷ us) = (u.now ≤ limit) × AllBefore limit us

module _ (platform : Platform) where
  -- SHA-256 has 64 hexadecimal digits for this key.
  abbrev pub HasDigits : List ℕ → Type 0
  HasDigits k = length (platform.sha256_hex (hash_domain ++ k)) ≡ 64

  -- No collision of this pair of keys is known.
  abbrev pub NoCollision : List ℕ → List ℕ → Type 0
  NoCollision p k =
      platform.sha256_hex (hash_domain ++ p) ≡ platform.sha256_hex (hash_domain ++ k) → p ≡ k

  hash-IsHash :
      (k : List ℕ) → HasDigits k → is_realm_key_hash (text_of (hash_realm_key platform k)) ≡ true
  unfolding is_realm_key_hash hash_realm_key has_prefix
  hash-IsHash k digits = ground (arith, digits)

  hash-injective :
      (p k : List ℕ)
      → NoCollision p k
      → hash_realm_key platform p ≡ hash_realm_key platform k
      → p ≡ k
  unfolding hash_realm_key
  hash-injective p k unlike e =
      let same : platform.sha256_hex (hash_domain ++ p) ≡ platform.sha256_hex (hash_domain ++ k) =
        cc in
      unlike same

  -- A presented key matches a stored hash exactly if it is its hash.
  matches_lem :
      (p : List ℕ) (stored : Field)
      → p ≢ []
      → HasDigits p
      → realm_key_matches platform p stored ≡ true ↔ (stored ≡ text_of (hash_realm_key platform p))
  unfolding realm_key_matches
  matches_lem p missing ne digits = ground (arith, ne)
  matches_lem p not_text ne digits = ground (arith, ne)
  matches_lem p (text_of value) ne digits = (
    λ h. ap text_of (sym (eq_of_== _ _ (rest h))),
    λ h. ground (arith, ne, hash-IsHash p digits, h),
  )
    where
      rest :
          realm_key_matches platform p (text_of value) ≡ true
          → (hash_realm_key platform p == value) ≡ true
      rest h = ground (arith, ne, h)

  -- Dropping what lapsed keeps the current hash.
  key_hash-drop_key :
      (rc : RealmConfig) (now : ℕ) → (drop_key platform rc now).0.key_hash ≡ rc.key_hash
  unfolding drop_key
  key_hash-drop_key rc now =
      elim (Bool-cases (lapsed platform rc.previous_key_hash rc.previous_key_until now)) [
        | inl old ↦ rw old refl
        | inr kept ↦ rw kept refl
      ]

  drop_manager_key_lem :
      (rc : RealmConfig) (now : ℕ)
      → ((drop_manager_key platform rc now).0.key_hash ≡ rc.key_hash)
        × ((drop_manager_key platform rc now).0.previous_key_hash ≡ rc.previous_key_hash)
        × ((drop_manager_key platform rc now).0.previous_key_until ≡ rc.previous_key_until)
  unfolding drop_manager_key
  drop_manager_key_lem rc now =
      elim (Bool-cases (lapsed platform rc.previous_manager_key rc.previous_manager_until now)) [
        | inl old ↦ rw old (refl, refl, refl)
        | inr kept ↦ rw kept (refl, refl, refl)
      ]

  -- The previous key counts while it is a text in its time, before the drop and after it.
  counts : RealmConfig → ℕ → List ℕ → Bool
  counts rc now p =
      is_set rc.previous_key_hash
      && still_valid platform rc.previous_key_until now
      && realm_key_matches platform p rc.previous_key_hash

  still_valid_before :
      (until : Field) (now later : ℕ)
      → now ≤ later
      → still_valid platform until now ≡ false
      → still_valid platform until later ≡ false
  unfolding still_valid
  still_valid_before until now later le h = elim (Option-cases (platform.date_parse until)) [
    | inl never ↦ rw never refl
    | inr (t, e) ↦ let old : ltb now t ≡ false = rw e at h in rw e (ground arith)
  ]

  counts-drop_key :
      (rc : RealmConfig) (now later : ℕ) (p : List ℕ)
      → now ≤ later
      → counts (drop_key platform rc now).0 later p ≡ counts rc later p
  unfolding counts drop_key lapsed
  counts-drop_key rc now later p le =
      elim (Bool-cases (lapsed platform rc.previous_key_hash rc.previous_key_until now)) [
        | inl old ↦ rw old (lapsed_counts old)
        | inr kept ↦ rw kept refl
      ]
    where
      lapsed_counts :
          lapsed platform rc.previous_key_hash rc.previous_key_until now ≡ true
          → false ≡ counts rc later p
      lapsed_counts old = ground (arith, old, still_valid_before rc.previous_key_until now later le)

  counts-drop_manager_key :
      (rc : RealmConfig) (now later : ℕ) (p : List ℕ)
      → counts (drop_manager_key platform rc now).0 later p ≡ counts rc later p
  unfolding counts
  counts-drop_manager_key rc now later p =
      let (key_hash, previous, until) = drop_manager_key_lem rc now in
      let test = λ (a b : Field).
        is_set a && still_valid platform b later && realm_key_matches platform p a in
      ap (λ a. test a (drop_manager_key platform rc now).0.previous_key_until) previous
      ∙ ap (λ b. test rc.previous_key_hash b) until

  counts-hide_key :
      (f : Field) (rc : RealmConfig) (now : ℕ) (p : List ℕ)
      → counts (hide_key platform f rc).0 now p ≡ counts rc now p
  unfolding hide_key counts
  counts-hide_key missing rc now p = refl
  counts-hide_key not_text rc now p = refl
  counts-hide_key (text_of []) rc now p = refl
  counts-hide_key (text_of (c ∷ cs)) rc now p = refl

  counts_lem :
      (rc : RealmConfig) (now : ℕ) (p : List ℕ)
      → p ≢ []
      → HasDigits p
      → counts rc now p ≡ true ↔ (
          (rc.previous_key_hash ≡ text_of (hash_realm_key platform p))
          × (still_valid platform rc.previous_key_until now ≡ true))
  unfolding counts hash_realm_key
  counts_lem rc now p ne digits =
      let matching = matches_lem p rc.previous_key_hash ne digits in
      (
        λ h.
            let parts : (realm_key_matches platform p rc.previous_key_hash ≡ true)
                × (still_valid platform rc.previous_key_until now ≡ true) =
              ground (arith, h) in
            (matching.0 parts.0, parts.1),
        λ (e, valid).
            let present : is_set rc.previous_key_hash ≡ true = rw (e, hash_realm_key) refl in
            ground (arith, present, valid, matching.1 e),
      )

  -- The key `k` of a realm: as a raw key that no use of it has hidden yet, or hashed.
  abbrev pub IsKey : List ℕ → RealmConfig → Type 0
  IsKey k rc =
      ((raw_key platform rc ≡ text_of k) × (k ≢ []) × (is_realm_key_hash (text_of k) ≡ false))
      ⊎ ((settled platform (raw_key platform rc) ≡ true)
          × (rc.key_hash ≡ text_of (hash_realm_key platform k)))

  hide_key_hash :
      (k : List ℕ) (rc : RealmConfig)
      → IsKey k rc
      → (hide_key platform (raw_key platform rc) rc).0.key_hash
        ≡ text_of (hash_realm_key platform k)
  unfolding hide_key
  hide_key_hash [] rc (inl (e, ne, raw)) = absurd (ne refl)
  hide_key_hash (c ∷ cs) rc (inl (e, ne, raw)) = rw e (rw raw refl)
  hide_key_hash k rc (inr (bare, hash)) =
      rw (hide_settled platform (raw_key platform rc) rc bare) hash

  normalized-IsKey :
      (k : List ℕ) (rc : RealmConfig) (now : ℕ)
      → IsKey k rc
      → (settled platform (raw_key platform (normalize_realm_config platform rc now).0) ≡ true)
        × ((normalize_realm_config platform rc now).0.key_hash
            ≡ text_of (hash_realm_key platform k))
  unfolding normalize_realm_config
  normalized-IsKey k rc now is =
      let rc1 = (hide_key platform (raw_key platform rc) rc).0 in
      let rc2 = (drop_key platform rc1 now).0 in
      (
        ap (settled platform)
              (raw_key-drop_manager_key platform rc2 now ∙ raw_key-drop_key platform rc1 now)
            ∙ settled-hide_key platform (raw_key platform rc) rc refl,
        (drop_manager_key_lem rc2 now).0 ∙ key_hash-drop_key rc1 now ∙ hide_key_hash k rc is,
      )

  counts-normalize_realm_config :
      (rc : RealmConfig) (now later : ℕ) (p : List ℕ)
      → now ≤ later
      → counts (normalize_realm_config platform rc now).0 later p ≡ counts rc later p
  unfolding normalize_realm_config
  counts-normalize_realm_config rc now later p le =
      let rc1 = (hide_key platform (raw_key platform rc) rc).0 in
      let rc2 = (drop_key platform rc1 now).0 in
      counts-drop_manager_key rc2 now later p
      ∙ counts-drop_key rc1 now later p le
      ∙ counts-hide_key (raw_key platform rc) rc later p

  -- The configuration after these keys were presented.
  unfoldable pub after : Option RealmConfig → List Use → Option RealmConfig
  after rc [] = rc
  after rc (u ∷ us) = after (realm_key_accepted platform rc u.now u.later u.presented).0 us

  -- However often keys were presented, the key is the same, and so is what the previous key counts for.
  after_uses :
      (k : List ℕ) (rc : RealmConfig) (us : List Use) (later : ℕ) (p : List ℕ)
      → IsKey k rc
      → AllBefore later us
      → (rc' : RealmConfig) × (after (some rc) us ≡ some rc')
        × IsKey k rc'
        × (counts rc' later p ≡ counts rc later p)
  unfolding after realm_key_accepted
  after_uses k rc [] later p is before = (rc, refl, is, refl)
  after_uses k rc (u ∷ us) later p is before =
      let rc1 = (normalize_realm_config platform rc u.now).0 in
      let (rc', e, is', same) =
        after_uses k rc1 us later p (inr (normalized-IsKey k rc u.now is)) before.1 in
      (rc', e, is', same ∙ counts-normalize_realm_config rc u.now later p before.0)

  accepted_if :
      (k : List ℕ) (rc : RealmConfig) (now later : ℕ) (p : List ℕ)
      → IsKey k rc
      → now ≤ later
      → p ≢ []
      → HasDigits p
      → NoCollision p k
      → (realm_key_accepted platform (some rc) now later p).1 ≡ true
        ↔ ((p ≡ k) ⊎ (counts rc later p ≡ true))
  unfolding realm_key_accepted counts
  accepted_if k rc now later p is le ne digits unlike =
      let rc3 = (normalize_realm_config platform rc now).0 in
      let hash = (normalized-IsKey k rc now is).1 in
      let previous : counts rc3 later p ≡ counts rc later p =
        counts-normalize_realm_config rc now later p le in
      let current = matches_lem p rc3.key_hash ne digits in
      (
        λ h. elim (Bool-cases (realm_key_matches platform p rc3.key_hash)) [
          | inl now_current ↦
              let same : text_of (hash_realm_key platform p) ≡ text_of (hash_realm_key platform k) =
                sym (current.0 now_current) ∙ hash in
              inl (hash-injective p k unlike (cc (same)))
          | inr other ↦
              let counted : counts rc3 later p ≡ true = accepted_else _ _ other h in
              inr (sym previous ∙ counted)
        ],
        λ r. elim r [
          | inl same ↦
              accepted_first _ (counts rc3 later p)
                (current.1 (hash ∙ ap (λ j. text_of (hash_realm_key platform j)) (sym same)))
          | inr before ↦ accepted_second _ _ (previous ∙ before)
        ],
      )

  -- A key opens a realm exactly if it is the realm's key, configured raw or hashed, or the previous
  -- key before its grace time ends, however often keys were presented before. The clock does not go
  -- back; the key that is presented has a hash of 64 digits and does not collide with the realm's.
  pub realm_key_accepted_lem :
      (k : List ℕ) (rc : RealmConfig) (us : List Use) (now later : ℕ) (p : List ℕ)
      → IsKey k rc
      → AllBefore later us
      → now ≤ later
      → p ≢ []
      → HasDigits p
      → NoCollision p k
      → (realm_key_accepted platform (after (some rc) us) now later p).1 ≡ true ↔ (
          (p ≡ k)
          ⊎ ((rc.previous_key_hash ≡ text_of (hash_realm_key platform p))
              × (still_valid platform rc.previous_key_until later ≡ true)))
  realm_key_accepted_lem k rc us now later p is before le ne digits unlike =
      let (rc', e, is', same) = after_uses k rc us later p is before in
      let (only, if_so) = accepted_if k rc' now later p is' le ne digits unlike in
      let (counted, counting) = counts_lem rc later p ne digits in
      rw e (
        λ h. elim (only h) [ inl own ↦ inl own | inr c ↦ inr (counted (sym same ∙ c)) ],
        λ r. elim r [ inl own ↦ if_so (inl own) | inr c ↦ if_so (inr (same ∙ counting c)) ],
      )
