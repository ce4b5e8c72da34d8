-- ===== src/Limits/Quota.antt =====
-- The bound on what a key is granted over a run of calls.
use tyo_mq.Prelude.{
  ℕ, ◌+◌, ◌-◌, ◌*◌, ◌≤◌, ◌≡◌, ◌≢◌, ap, Option, some, List, [], ◌∷◌, arith, codes_eq,
}
use tyo_mq.Prelude.Dict
use tyo_mq.Prelude.Dict.{NodupKeys}
use tyo_mq.Limits.{Limits, Rate, take, bucket_idle_ms}
use tyo_mq.Limits.Admitted.{
  granted, credit, credit-take, credit-take_other, refilled_le, refilled_bounded, take-NodupKeys,
}

-- A call of `_take` for the key, or for another one.
pub data Event (key : List ℕ) : Type 0 where
  mine : (now cost : ℕ) → Event key
  another :
      (now : ℕ) (key' : List ℕ) → key ≢ key' → (rate : Option Rate) (burst cost : ℕ) → Event key

-- The sum over a call and the calls behind it.
pays :
    (here later p a t now finish c_start c_now c_after : ℕ)
    → t ≤ now
    → now ≤ finish
    → later * p ≤ c_after + (finish - now) * a
    → c_after + here * p ≡ c_now
    → c_now ≤ c_start + (now - t) * a
    → (here + later) * p ≤ c_start + (finish - t) * a
pays here later p a t now finish c_start c_now c_after h h' rest paid earned =
    let apart : (here + later) * p ≡ here * p + later * p = grind arith in
    let time : ((now - t) + (finish - now)) * a ≡ (now - t) * a + (finish - now) * a =
      grind arith in
    let span : (now - t) + (finish - now) ≡ finish - t = omega arith in
    omega (arith, apart, time, ap (λ d. d * a) span)

module _ (rate : Rate) (burst : ℕ) (key : List ℕ) where
  abbrev time_of : Event key → ℕ
  time_of (mine now cost) = now
  time_of (another now key' ne rate' burst' cost) = now

  -- The state after a call, and what the key was granted by it.
  unfoldable pub step : Limits → Event key → Limits × ℕ
  step s (mine now cost) =
      let (s', verdict) = take s now key (some rate) burst cost in (s', granted verdict cost)
  step s (another now key' ne rate' burst' cost) = ((take s now key' rate' burst' cost).0, 0)

  -- What the key is granted by a run.
  unfoldable pub total : Limits → List (Event key) → ℕ
  total s [] = 0
  total s (e ∷ es) = (step s e).1 + total (step s e).0 es

  -- The clock does not go back.
  abbrev pub Ordered : ℕ → List (Event key) → Type 0
  Ordered t [] = Unit
  Ordered t (e ∷ es) = (t ≤ time_of e) × Ordered (time_of e) es

  abbrev pub end_of : ℕ → List (Event key) → ℕ
  end_of t [] = t
  end_of t (e ∷ es) = end_of (time_of e) es

  le-end_of : (t : ℕ) (es : List (Event key)) → Ordered t es → t ≤ end_of t es
  le-end_of t [] o = omega arith
  le-end_of t (e ∷ es) (h, o) = omega (arith, le-end_of (time_of e) es o)

  module _ (full : burst * rate.period ≤ bucket_idle_ms * rate.amount) where
    credit-step :
        (s : Limits) (e : Event key)
        → NodupKeys s.buckets
        → credit rate burst key (step s e).0 (time_of e) + (step s e).1 * rate.period
          ≡ credit rate burst key s (time_of e)
    unfolding step
    credit-step s (mine now cost) n = credit-take rate burst key s now cost n full
    credit-step s (another now key' ne rate' burst' cost) n =
        omega (arith, credit-take_other rate burst key key' s now rate' burst' cost ne n full)

    step-NodupKeys :
        (s : Limits) (e : Event key) → NodupKeys s.buckets → NodupKeys (step s e).0.buckets
    unfolding step
    step-NodupKeys s (mine now cost) n = take-NodupKeys s now key (some rate) burst cost n
    step-NodupKeys s (another now key' ne rate' burst' cost) n =
        take-NodupKeys s now key' rate' burst' cost n

    -- The tokens at the start and what the rate gives pay for what is granted.
    total_le :
        (t : ℕ) (s : Limits) (es : List (Event key))
        → NodupKeys s.buckets
        → Ordered t es
        → total s es * rate.period ≤ credit rate burst key s t + (end_of t es - t) * rate.amount
    unfolding total
    total_le t s [] n o = omega arith
    total_le t s (e ∷ es) n (h, o) =
        let now = time_of e in
        let rest = total_le now (step s e).0 es (step-NodupKeys s e n) o in
        pays (step s e).1 (total (step s e).0 es) rate.period rate.amount t now (end_of now es)
          (credit rate burst key s t) (credit rate burst key s now)
          (credit rate burst key (step s e).0 now) h (le-end_of now es o) rest (credit-step s e n)
          (refilled_le rate burst t now (Dict.lookup key s.buckets) h)

    -- In any stretch of time a key is granted no more than its burst and what the rate gives.
    pub total-le :
        (t : ℕ) (s : Limits) (es : List (Event key))
        → NodupKeys s.buckets
        → Ordered t es
        → total s es * rate.period ≤ burst * rate.period + (end_of t es - t) * rate.amount
    total-le t s es n o =
        omega
          (arith, total_le t s es n o, refilled_bounded rate burst t (Dict.lookup key s.buckets))
