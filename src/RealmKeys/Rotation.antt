-- ===== src/RealmKeys/Rotation.antt =====
-- Normalising is done once, and a key opens its realm while it is the current one or in its grace time.
use tyo_mq.Prelude.{
  ℕ, ◌≡◌, refl, ap, ◌∙◌, Bool, true, false, [], ◌∷◌, codes_eq, nat_eq, arith, Bool-cases, inl, inr,
}
use tyo_mq.RealmKeys.{
  Field, missing, not_text, text_of, Platform, RealmConfig, hide_key, lapsed, drop_key,
  drop_manager_key, raw_key, normalize_realm_config,
}

module _ (platform : Platform) where
  -- Nothing to hide: no text with content.
  unfoldable pub settled : Field → Bool
  settled missing = true
  settled not_text = true
  settled (text_of []) = true
  settled (text_of (c ∷ cs)) = false

  pub hide_settled :
      (f : Field) (rc : RealmConfig) → settled f ≡ true → hide_key platform f rc ≡ (rc, false)
  unfolding settled hide_key
  hide_settled missing rc h = refl
  hide_settled not_text rc h = refl
  hide_settled (text_of []) rc h = refl
  hide_settled (text_of (c ∷ cs)) rc h = ground arith

  pub settled-hide_key :
      (f : Field) (rc : RealmConfig)
      → raw_key platform rc ≡ f
      → settled (raw_key platform (hide_key platform f rc).0) ≡ true
  unfolding settled hide_key
  settled-hide_key missing rc e = ap settled e
  settled-hide_key not_text rc e = ap settled e
  settled-hide_key (text_of []) rc e = ap settled e
  settled-hide_key (text_of (c ∷ cs)) rc e = refl

  pub raw_key-drop_key :
      (rc : RealmConfig) (now : ℕ)
      → raw_key platform (drop_key platform rc now).0 ≡ raw_key platform rc
  unfolding drop_key
  raw_key-drop_key rc now =
      elim (Bool-cases (lapsed platform rc.previous_key_hash rc.previous_key_until now)) [
        | inl old ↦ rw old refl
        | inr kept ↦ rw kept refl
      ]

  pub raw_key-drop_manager_key :
      (rc : RealmConfig) (now : ℕ)
      → raw_key platform (drop_manager_key platform rc now).0 ≡ raw_key platform rc
  unfolding drop_manager_key
  raw_key-drop_manager_key rc now =
      elim (Bool-cases (lapsed platform rc.previous_manager_key rc.previous_manager_until now)) [
        | inl old ↦ rw old refl
        | inr kept ↦ rw kept refl
      ]

  abbrev key_lapsed : RealmConfig → ℕ → Bool
  key_lapsed rc now = lapsed platform rc.previous_key_hash rc.previous_key_until now

  abbrev manager_lapsed : RealmConfig → ℕ → Bool
  manager_lapsed rc now = lapsed platform rc.previous_manager_key rc.previous_manager_until now

  lapsed_missing : (until : Field) (now : ℕ) → lapsed platform missing until now ≡ false
  unfolding lapsed
  lapsed_missing until now = refl

  key_lapsed-drop_key :
      (rc : RealmConfig) (now : ℕ) → key_lapsed (drop_key platform rc now).0 now ≡ false
  unfolding drop_key
  key_lapsed-drop_key rc now = elim (Bool-cases (key_lapsed rc now)) [
    | inl old ↦ rw old (lapsed_missing missing now)
    | inr kept ↦ rw (kept, kept) refl
  ]

  key_lapsed-drop_manager_key :
      (rc : RealmConfig) (now : ℕ)
      → key_lapsed (drop_manager_key platform rc now).0 now ≡ key_lapsed rc now
  unfolding drop_manager_key
  key_lapsed-drop_manager_key rc now = elim (Bool-cases (manager_lapsed rc now)) [
    | inl old ↦ rw old refl
    | inr kept ↦ rw kept refl
  ]

  manager_lapsed-drop_manager_key :
      (rc : RealmConfig) (now : ℕ) → manager_lapsed (drop_manager_key platform rc now).0 now ≡ false
  unfolding drop_manager_key
  manager_lapsed-drop_manager_key rc now = elim (Bool-cases (manager_lapsed rc now)) [
    | inl old ↦ rw old (lapsed_missing missing now)
    | inr kept ↦ rw (kept, kept) refl
  ]

  normalized :
      (rc : RealmConfig) (now : ℕ)
      → settled (raw_key platform rc) ≡ true
      → key_lapsed rc now ≡ false
      → manager_lapsed rc now ≡ false
      → normalize_realm_config platform rc now ≡ (rc, false)
  unfolding normalize_realm_config drop_key drop_manager_key
  normalized rc now raw key manager =
      rw (hide_settled (raw_key platform rc) rc raw, key, manager) refl

  -- Normalising a configuration a second time at the same time changes nothing and reports no
  -- change.
  pub normalize_realm_config_twice :
      (rc : RealmConfig) (now : ℕ)
      → normalize_realm_config platform (normalize_realm_config platform rc now).0 now
        ≡ ((normalize_realm_config platform rc now).0, false)
  unfolding normalize_realm_config
  normalize_realm_config_twice rc now =
      let rc1 = (hide_key platform (raw_key platform rc) rc).0 in
      let rc2 = (drop_key platform rc1 now).0 in
      let rc3 = (drop_manager_key platform rc2 now).0 in
      normalized rc3 now
        (ap settled (raw_key-drop_manager_key rc2 now ∙ raw_key-drop_key rc1 now)
          ∙ settled-hide_key (raw_key platform rc) rc refl)
        (key_lapsed-drop_manager_key rc2 now ∙ key_lapsed-drop_key rc1 now)
        (manager_lapsed-drop_manager_key rc2 now)
