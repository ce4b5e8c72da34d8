-- ===== src/Prekeys/Refill.antt =====
-- What a publish does to the pools.
use tyo_mq.Prelude.{
  ℕ, ◌≤◌, String, Bool, true, false, none, some, List, [], ◌∷◌, ◌++◌, ◌&&◌, ◌≡◌, ◌⊎◌, inl, inr,
  refl, ap, ◌∙◌, sym, length, ltb, not, take, if◌then◌else◌, ◌==◌, ==_refl, string_eq, contains,
  arith, Bool-cases, Option-cases,
}
use tyo_mq.Prelude.Dict
use tyo_mq.Prelude.Dict.{Dict}
use tyo_mq.Prekeys.{
  OneTime, Bundle, Publish, Incoming, publish, Reply, refused, published, StoreCall, put_bundle,
  Directory, required_ok, clean, kept_pool, new_bundle, store_bundle, store_cleaned, prekey_publish,
}
use tyo_mq.Prekeys.Pool.{pool}

module _ (batch_max pool_max max_key_length : ℕ) where
  abbrev pub publish_in :
      Directory → List String → Incoming → ℕ → Directory × Reply × List StoreCall
  publish_in d owned incoming now =
      prekey_publish batch_max pool_max max_key_length d owned incoming now

  -- A stored identity key is replaced by another one.
  abbrev pub rotates : Directory → Publish → Bool
  rotates d obj = elim (Dict.lookup obj.identity d) [
    | none ↦ false
    | some bundle ↦ not (bundle.identity_key == "") && not (bundle.identity_key == obj.identity_key)
  ]

  kept_pool-pool :
      (d : Directory) (obj : Publish)
      → kept_pool batch_max pool_max max_key_length (Dict.lookup obj.identity d) obj.identity_key
        ≡ (if rotates d obj then [] else pool d obj.identity)
  unfolding kept_pool
  kept_pool-pool d obj = ground arith

  -- The pools that an accepted publish leaves.
  abbrev pub pool_after : Directory → Publish → List OneTime → String → List OneTime
  pool_after d obj cleaned identity =
      if identity == obj.identity
      then take pool_max ((if rotates d obj then [] else pool d obj.identity) ++ cleaned)
      else pool d identity

  pub pool-insert :
      (d : Directory) (identity j : String) (bundle : Bundle)
      → pool (Dict.insert identity bundle d) j
        ≡ (if j == identity then bundle.one_time else pool d j)
  pool-insert d identity j bundle = ground (arith, Dict.lookup-insert j identity bundle d)

  store_bundle-pool :
      (d : Directory) (obj : Publish) (cleaned : List OneTime) (now : ℕ) (identity : String)
      → pool (store_bundle batch_max pool_max max_key_length d obj cleaned now).0 identity
        ≡ pool_after d obj cleaned identity
  unfolding store_bundle new_bundle
  store_bundle-pool d obj cleaned now identity =
      pool-insert d obj.identity identity _
      ∙ ap
          (λ xs.
            if identity == obj.identity then take pool_max (xs ++ cleaned) else pool d identity)
          (kept_pool-pool d obj)

  abbrev pub Refuses : Directory → Directory × Reply × List StoreCall → Type 0
  Refuses d (d', reply, calls) = (code : ℕ) × (d' ≡ d) × (reply ≡ refused code) × (calls ≡ [])

  abbrev pub Accepts :
      Directory → List String → Publish → Directory × Reply × List StoreCall → Type 0
  Accepts d owned obj (d', reply, calls) =
      (cleaned : List OneTime) × (contains owned obj.identity ≡ true)
      × (length obj.one_time_prekeys ≤ batch_max)
      × (clean batch_max pool_max max_key_length obj.one_time_prekeys ≡ some cleaned)
      × ((identity : String) → pool d' identity ≡ pool_after d obj cleaned identity)
      × (reply ≡ published (length (pool d' obj.identity)))
      × ((bundle : Bundle) × (Dict.lookup obj.identity d' ≡ some bundle)
          × (bundle.identity_key ≡ obj.identity_key)
          × (calls ≡ put_bundle obj.identity bundle ∷ []))

  store_bundle-Accepts :
      (d : Directory) (owned : List String) (obj : Publish) (cleaned : List OneTime) (now : ℕ)
      → contains owned obj.identity ≡ true
      → length obj.one_time_prekeys ≤ batch_max
      → clean batch_max pool_max max_key_length obj.one_time_prekeys ≡ some cleaned
      → Accepts d owned obj (store_bundle batch_max pool_max max_key_length d obj cleaned now)
  unfolding store_bundle new_bundle
  store_bundle-Accepts d owned obj cleaned now own fits e =
      let old = Dict.lookup obj.identity d in
      let bundle = new_bundle batch_max pool_max max_key_length old obj cleaned now in
      let here : Dict.lookup obj.identity (Dict.insert obj.identity bundle d) ≡ some bundle =
        Dict.lookup-insert obj.identity obj.identity bundle d ∙ rw (==_refl obj.identity) refl in
      (
        cleaned,
        own,
        fits,
        e,
        λ identity. store_bundle-pool d obj cleaned now identity,
        ap (λ (xs : List OneTime). published (length xs))
            (sym (pool-insert d obj.identity obj.identity bundle ∙ rw (==_refl obj.identity) refl)),
        (bundle, here, refl, refl),
      )

  prekey_publish-clean :
      (d : Directory) (owned : List String) (obj : Publish) (cleaned : List OneTime) (now : ℕ)
      → (obj.identity == "") ≡ false
      → contains owned obj.identity ≡ true
      → required_ok batch_max pool_max max_key_length obj ≡ true
      → ltb batch_max (length obj.one_time_prekeys) ≡ false
      → clean batch_max pool_max max_key_length obj.one_time_prekeys ≡ some cleaned
      → publish_in d owned (publish obj) now
        ≡ store_bundle batch_max pool_max max_key_length d obj cleaned now
  unfolding prekey_publish store_cleaned
  prekey_publish-clean d owned obj cleaned now e f g h c = rw (e, f, g, h, c) refl

  -- A publish is refused, and then changes nothing and calls no store; or it comes from the owner of the
  -- identity with clean prekeys in a batch within the bound. Then they are appended to the pool, which an identity key that
  -- changes has emptied first, up to the bound of a pool, all other pools stay, the answer is the length of the pool, and the bundle
  -- with the new identity key is what the store is told.
  pub prekey_publish_lem :
      (d : Directory) (owned : List String) (obj : Publish) (now : ℕ)
      → Refuses d (publish_in d owned (publish obj) now)
        ⊎ Accepts d owned obj (publish_in d owned (publish obj) now)
  unfolding prekey_publish store_cleaned
  prekey_publish_lem d owned obj now = elim (Bool-cases (obj.identity == "")) [
    | inl e ↦ rw e (inl (400, refl, refl, refl))
    | inr e ↦ elim (Bool-cases (contains owned obj.identity)) [
      | inr f ↦ rw (e, f) (inl (403, refl, refl, refl))
      | inl f ↦ elim (Bool-cases (required_ok batch_max pool_max max_key_length obj)) [
        | inr g ↦ rw (e, f, g) (inl (400, refl, refl, refl))
        | inl g ↦ elim (Bool-cases (ltb batch_max (length obj.one_time_prekeys))) [
          | inl h ↦ rw (e, f, g, h) (inl (400, refl, refl, refl))
          | inr h ↦
              elim (Option-cases (clean batch_max pool_max max_key_length obj.one_time_prekeys)) [
                | inl c ↦ rw (e, f, g, h, c) (inl (400, refl, refl, refl))
                | inr (cleaned, c) ↦
                    rw (prekey_publish-clean d owned obj cleaned now e f g h c)
                      (inr (store_bundle-Accepts d owned obj cleaned now f (ground arith) c))
              ]
        ]
      ]
    ]
  ]
