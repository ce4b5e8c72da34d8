-- ===== src/Prekeys/Bounds.antt =====
-- How large the pools get.
use tyo_mq.Prelude.{
  ℕ, ◌≤◌, String, List, [], ◌∷◌, ◌++◌, inl, inr, length, length-take-le, if◌then◌else◌, ◌==◌,
  string_eq, arith, Bool-cases, Option-cases,
}
use tyo_mq.Prelude.Dict
use tyo_mq.Prelude.Dict.{Dict}
use tyo_mq.Prekeys.{
  OneTime, Bundle, Publish, Incoming, invalid_json, publish, Directory, prekey_publish, take_from,
  take_found, prekey_take,
}
use tyo_mq.Prekeys.Pool.{pool}
use tyo_mq.Prekeys.Refill.{publish_in, rotates, pool_after, pool-insert, prekey_publish_lem}

-- Everything that changes a directory.
pub data Call : Type 0 where
  publish_call : List String → Incoming → ℕ → Call
  take_call : String → Call

module _ (batch_max pool_max max_key_length : ℕ) where
  unfoldable pub step : Directory → Call → Directory
  step d (publish_call owned incoming now) =
      (prekey_publish batch_max pool_max max_key_length d owned incoming now).0
  step d (take_call identity) = (prekey_take d identity).0

  unfoldable pub run : Directory → List Call → Directory
  unfolding step
  run d [] = d
  run d (c ∷ cs) = run (step d c) cs

  abbrev pub IsBounded : Directory → Type 0
  IsBounded d = (identity : String) → length (pool d identity) ≤ pool_max

  pool_after-IsBounded :
      (d : Directory) (obj : Publish) (cleaned : List OneTime) (identity : String)
      → IsBounded d
      → length (pool_after batch_max pool_max max_key_length d obj cleaned identity) ≤ pool_max
  pool_after-IsBounded d obj cleaned identity b = elim (Bool-cases (identity == obj.identity)) [
    | inl e ↦ rw e (
        (length-take-le pool_max (
          (if rotates batch_max pool_max max_key_length d obj then [] else pool d obj.identity)
          ++ cleaned)).0)
    | inr e ↦ rw e (b identity)
  ]

  published-IsBounded :
      (d : Directory) (owned : List String) (obj : Publish) (now : ℕ) (identity : String)
      → IsBounded d
      → length
          (pool (publish_in batch_max pool_max max_key_length d owned (publish obj) now).0 identity)
        ≤ pool_max
  published-IsBounded d owned obj now identity b =
      elim (prekey_publish_lem batch_max pool_max max_key_length d owned obj now) [
        | inl (code, e, r, c) ↦ rw e (b identity)
        | inr (cleaned, own, fits, e, pools, r, w) ↦
            rw (pools identity) (pool_after-IsBounded d obj cleaned identity b)
      ]

  publish-IsBounded :
      (d : Directory) (owned : List String) (incoming : Incoming) (now : ℕ)
      → IsBounded d
      → IsBounded (prekey_publish batch_max pool_max max_key_length d owned incoming now).0
  unfolding prekey_publish
  publish-IsBounded d owned invalid_json now b identity = b identity
  publish-IsBounded d owned (publish obj) now b identity =
      published-IsBounded d owned obj now identity b

  take_from-IsBounded :
      (d : Directory) (identity : String) (bundle : Bundle) (ones : List OneTime)
      → length ones ≤ pool_max
      → IsBounded d
      → IsBounded (take_from d identity bundle ones).0
  unfolding take_from
  take_from-IsBounded d identity bundle [] le b j = b j
  take_from-IsBounded d identity bundle (first ∷ rest) le b j =
      let bundle' = record bundle { one_time = rest } in
      rw (pool-insert batch_max pool_max max_key_length d identity j bundle')
        (ground (arith, le, b j))

  take-IsBounded :
      (d : Directory) (identity : String) → IsBounded d → IsBounded (prekey_take d identity).0
  unfolding prekey_take take_found
  take-IsBounded d identity b j = elim (Bool-cases (identity == "")) [
    | inl e ↦ rw e (b j)
    | inr e ↦ elim (Option-cases (Dict.lookup identity d)) [
      | inl f ↦ rw (e, f) (b j)
      | inr (bundle, f) ↦ elim (Bool-cases (bundle.identity_key == "")) [
        | inl g ↦ rw (e, f, g) (b j)
        | inr g ↦
            let le : length bundle.one_time ≤ pool_max = ground (arith, b identity, f) in
            rw (e, f, g) (take_from-IsBounded d identity bundle bundle.one_time le b j)
      ]
    ]
  ]

  step-IsBounded : (d : Directory) (c : Call) → IsBounded d → IsBounded (step d c)
  unfolding step
  step-IsBounded d (publish_call owned incoming now) b = publish-IsBounded d owned incoming now b
  step-IsBounded d (take_call identity) b = take-IsBounded d identity b

  run-IsBounded : (d : Directory) (calls : List Call) → IsBounded d → IsBounded (run d calls)
  unfolding run
  run-IsBounded d [] b = b
  run-IsBounded d (c ∷ cs) b = run-IsBounded (step d c) cs (step-IsBounded d c b)

  empty-IsBounded : IsBounded []
  unfolding Dict.lookup
  empty-IsBounded identity = omega arith

  -- From the empty directory, whatever is published and taken, no pool grows beyond its bound.
  pub pool-run-le :
      (calls : List Call) (identity : String) → length (pool (run [] calls) identity) ≤ pool_max
  pool-run-le calls identity = run-IsBounded [] calls empty-IsBounded identity
