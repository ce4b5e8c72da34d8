-- ===== src/Limits/Admitted.antt =====
-- What a bucket admits: never more than its burst and what the rate gives in the time.
use tyo_mq.Prelude.{
  ℕ, ◌+◌, ◌-◌, ◌*◌, ◌≤◌, ◌≡◌, ◌≢◌, ◌∙◌, ap, ==_refl, refl, Option, none, some, List, leb, ltb,
  codes_eq, arith, Bool-cases, inl, inr,
}
use native.Mathlib.Nat.{mul-le-mul_right}
use tyo_mq.Prelude.Dict
use tyo_mq.Prelude.Dict.{
  Dict, NodupKeys, lookup-insert, lookup-retain, retain-NodupKeys, insert-NodupKeys, keep_if,
}
use tyo_mq.Limits.{
  Bucket, Limits, Rate, Verdict, ok, retry_after, prune, refilled, settle, take, bucket_idle_ms,
  prune_interval_ms, is_in_use,
}

-- What a call with this verdict took.
unfoldable pub granted : Verdict → ℕ → ℕ
granted ok cost = cost
granted (retry_after n) cost = 0

prune-NodupKeys : (s : Limits) (now : ℕ) → NodupKeys s.buckets → NodupKeys (prune s now).buckets
unfolding prune
prune-NodupKeys s now n = ground (arith, retain-NodupKeys (is_in_use now) s.buckets n)

pub take-NodupKeys :
    (s : Limits) (now : ℕ) (key : List ℕ) (rate : Option Rate) (burst cost : ℕ)
    → NodupKeys s.buckets
    → NodupKeys (take s now key rate burst cost).0.buckets
unfolding take settle
take-NodupKeys s now key none burst cost n = n
take-NodupKeys s now key (some rate) burst cost n =
    let n' = prune-NodupKeys s now n in
    let tokens = refilled rate burst now (Dict.lookup key (prune s now).buckets) in
    elim (Bool-cases (leb (cost * rate.period) tokens)) [
      | inl pays ↦ rw pays (insert-NodupKeys key _ (prune s now).buckets n')
      | inr poor ↦ rw poor (insert-NodupKeys key _ (prune s now).buckets n')
    ]

module _ (rate : Rate) (burst : ℕ) where
  -- The tokens that the key has at the time `now`.
  abbrev pub credit : List ℕ → Limits → ℕ → ℕ
  credit key s now = refilled rate burst now (Dict.lookup key s.buckets)

  -- What is deleted while idle had been refilled, if a full bucket is refilled in ten minutes.
  refilled-keep_if :
      (key : List ℕ) (now : ℕ) (b : Option Bucket)
      → burst * rate.period ≤ bucket_idle_ms * rate.amount
      → refilled rate burst now (keep_if (is_in_use now key) b) ≡ refilled rate burst now b
  unfolding refilled keep_if
  refilled-keep_if key now none h = refl
  refilled-keep_if key now (some b) h = elim (Bool-cases (is_in_use now key b)) [
    | inl used ↦ rw used refl
    | inr idle ↦
        let long : bucket_idle_ms ≤ now - b.updated_at = ground arith in
        let full : bucket_idle_ms * rate.amount ≤ (now - b.updated_at) * rate.amount =
          grind arith in
        rw idle (omega arith)
  ]

  credit-prune :
      (key : List ℕ) (s : Limits) (now : ℕ)
      → NodupKeys s.buckets
      → burst * rate.period ≤ bucket_idle_ms * rate.amount
      → credit key (prune s now) now ≡ credit key s now
  unfolding prune
  credit-prune key s now n h = elim (Bool-cases (ltb (now - s.last_prune_at) prune_interval_ms)) [
    | inl soon ↦ rw soon refl
    | inr due ↦ rw due (
        rw (lookup-retain (is_in_use now) key s.buckets n)
          (refilled-keep_if key now (Dict.lookup key s.buckets) h))
  ]

  pub refilled_le :
      (now later : ℕ) (b : Option Bucket)
      → now ≤ later
      → refilled rate burst later b ≤ refilled rate burst now b + (later - now) * rate.amount
  unfolding refilled
  refilled_le now later none h = omega arith
  refilled_le now later (some b) h =
      let span : later - b.updated_at ≤ (now - b.updated_at) + (later - now) = omega arith in
      let spread : ((now - b.updated_at) + (later - now)) * rate.amount
          ≡ (now - b.updated_at) * rate.amount + (later - now) * rate.amount =
        grind arith in
      omega (arith, mul-le-mul_right rate.amount span, spread)

  pub refilled_bounded :
      (now : ℕ) (b : Option Bucket) → refilled rate burst now b ≤ burst * rate.period
  unfolding refilled
  refilled_bounded now none = omega arith
  refilled_bounded now (some b) = omega arith

  refilled-inserted :
      (now t : ℕ)
      → t ≤ burst * rate.period
      → refilled rate burst now (some (record { tokens = t; updated_at = now })) ≡ t
  unfolding refilled
  refilled-inserted now t h = let same : now - now ≡ 0 = omega arith in rw same (omega arith)

  lookup-inserted :
      (key : List ℕ) (b : Bucket) (d : Dict (List ℕ) Bucket)
      → Dict.lookup key (Dict.insert key b d) ≡ some b
  lookup-inserted key b d = rw (lookup-insert key key b d, ==_refl key) refl

  credit-settle :
      (key : List ℕ) (s : Limits) (now cost tokens : ℕ)
      → tokens ≤ burst * rate.period
      → credit key (settle s now key rate cost tokens).0 now
          + granted (settle s now key rate cost tokens).1 cost * rate.period
        ≡ tokens
  unfolding settle granted
  credit-settle key s now cost tokens h = elim (Bool-cases (leb (cost * rate.period) tokens)) [
    | inl pays ↦ rw pays (
        rw
          (
            lookup-inserted key (record { tokens = tokens - cost * rate.period; updated_at = now })
                s.buckets,
            refilled-inserted now (tokens - cost * rate.period) (omega arith),
          )
          (ground arith))
    | inr poor ↦ rw poor (
        rw
          (
            lookup-inserted key (record { tokens = tokens; updated_at = now }) s.buckets,
            refilled-inserted now tokens h,
          )
          (omega arith))
  ]

  -- A call for the key: what is taken is what its tokens lose, and nothing is taken beyond them.
  pub credit-take :
      (key : List ℕ) (s : Limits) (now cost : ℕ)
      → NodupKeys s.buckets
      → burst * rate.period ≤ bucket_idle_ms * rate.amount
      → credit key (take s now key (some rate) burst cost).0 now
          + granted (take s now key (some rate) burst cost).1 cost * rate.period
        ≡ credit key s now
  unfolding take
  credit-take key s now cost n h =
      credit-settle key (prune s now) now cost (credit key (prune s now) now)
        (refilled_bounded now _)
      ∙ credit-prune key s now n h

  lookup-settle :
      (key key' : List ℕ) (s : Limits) (now : ℕ) (r : Rate) (cost tokens : ℕ)
      → key ≢ key'
      → Dict.lookup key (settle s now key' r cost tokens).0.buckets ≡ Dict.lookup key s.buckets
  unfolding settle
  lookup-settle key key' s now r cost tokens ne = elim (Bool-cases (leb (cost * r.period) tokens)) [
    | inl pays ↦ rw pays (
        ground (
          arith,
          ne,
          lookup-insert key key' (record { tokens = tokens - cost * r.period; updated_at = now })
              s.buckets,
        ))
    | inr poor ↦ rw poor (
        ground (
          arith,
          ne,
          lookup-insert key key' (record { tokens = tokens; updated_at = now }) s.buckets,
        ))
  ]

  -- A call for another key changes nothing.
  pub credit-take_other :
      (key key' : List ℕ) (s : Limits) (now : ℕ) (rate' : Option Rate) (burst' cost : ℕ)
      → key ≢ key'
      → NodupKeys s.buckets
      → burst * rate.period ≤ bucket_idle_ms * rate.amount
      → credit key (take s now key' rate' burst' cost).0 now ≡ credit key s now
  unfolding take
  credit-take_other key key' s now none burst' cost ne n h = refl
  credit-take_other key key' s now (some r) burst' cost ne n h =
      ap (refilled rate burst now) (
        lookup-settle key key' (prune s now) now r cost
          (refilled r burst' now (Dict.lookup key' (prune s now).buckets)) ne)
      ∙ credit-prune key s now n h
