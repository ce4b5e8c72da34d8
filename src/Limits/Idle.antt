-- ===== src/Limits/Idle.antt =====
-- A bucket that is idle for ten minutes is deleted, and a new one is full.
use tyo_mq.Prelude.{
  ℕ, ◌+◌, ◌-◌, ◌*◌, ◌≤◌, ◌<◌, ◌≡◌, refl, ◌∙◌, none, some, List, false, true, ltb, leb, codes_eq,
  arith, ==_refl,
}
use native.Mathlib.Nat.{mul-le-mul_right}
use tyo_mq.Prelude.Dict
use tyo_mq.Prelude.Dict.{NodupKeys, lookup-insert, lookup-retain, keep_if}
use tyo_mq.Limits.{
  Bucket, Limits, Rate, ok, prune, refilled, settle, take, bucket_idle_ms, prune_interval_ms,
  is_in_use,
}

lookup-prune :
    (s : Limits) (now : ℕ) (key : List ℕ) (b : Bucket)
    → NodupKeys s.buckets
    → Dict.lookup key s.buckets ≡ some b
    → b.updated_at + bucket_idle_ms < now
    → s.last_prune_at + prune_interval_ms ≤ now
    → Dict.lookup key (prune s now).buckets ≡ none
unfolding prune keep_if
lookup-prune s now key b n at_key idle due =
    let pruned : ltb (now - s.last_prune_at) prune_interval_ms ≡ false = ground arith in
    let old : is_in_use now key b ≡ false = ground arith in
    rw pruned (lookup-retain (is_in_use now) key s.buckets n ∙ rw at_key (rw old refl))

-- More than ten minutes after its last use, once a minute has passed since the last pruning, so that one is due, a
-- key can take its whole burst again, whatever its rate: the rate of new realms gives a sixth of it in ten minutes.
pub take_after_idle :
    (s : Limits) (now : ℕ) (key : List ℕ) (rate : Rate) (burst cost : ℕ) (b : Bucket)
    → NodupKeys s.buckets
    → Dict.lookup key s.buckets ≡ some b
    → b.updated_at + bucket_idle_ms < now
    → s.last_prune_at + prune_interval_ms ≤ now
    → cost ≤ burst
    → ((take s now key (some rate) burst cost).1 ≡ ok)
      × (Dict.lookup key (take s now key (some rate) burst cost).0.buckets
          ≡ some (record { tokens = burst * rate.period - cost * rate.period; updated_at = now }))
unfolding take settle refilled
take_after_idle s now key rate burst cost b n at_key idle due h =
    let fresh = lookup-prune s now key b n at_key idle due in
    let pays : leb (cost * rate.period) (burst * rate.period) ≡ true =
      ground (arith, mul-le-mul_right rate.period h) in
    rw (fresh, refilled, pays)
      (refl, lookup-insert key key _ (prune s now).buckets ∙ rw (==_refl key) refl)
