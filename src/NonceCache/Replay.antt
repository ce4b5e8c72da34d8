-- ===== src/NonceCache/Replay.antt =====
-- The cache against a history that forgets nothing.
use tyo_mq.Prelude.{
  ℕ, ◌+◌, ◌*◌, ◌≤◌, String, Bool, true, false, Option, none, some, List, [], ◌∷◌, ◌++◌, ◌≡◌, refl,
  ap, ◌∙◌, leb, ltb, not, or_default, if◌then◌else◌, ◌==◌, string_eq, arith, Bool-cases, inl, inr,
}
use tyo_mq.Prelude.Dict
use tyo_mq.Prelude.Dict.{keep_if}
use tyo_mq.NonceCache.{
  NonceCache, init, prune, maybe_prune, has, add, size, is_remembered, is_expired,
}

-- A call, with its readings of the clock.
pub data Call : Type 0 where
  has_call : String → ℕ → ℕ → ℕ → Call
  add_call : String → ℕ → ℕ → ℕ → Call
  size_call : ℕ → Call

step : NonceCache → Call → NonceCache
step c (has_call n t u v) = (has c n t u v).0
step c (add_call n t u v) = add c n t u v
step c (size_call u) = (size c u).0

unfoldable pub run : NonceCache → List Call → NonceCache
unfolding step
run c [] = c
run c (call ∷ calls) = run (step c call) calls

-- When each nonce was last added, whatever was pruned since.
abbrev pub History : Type 0
History = String → Option ℕ

note : History → Call → History
note h (has_call n t u v) = h
note h (add_call n t u v) = λ j. if j == n then some v else h j
note h (size_call u) = h

pub history : History → List Call → History
unfolding note
history h [] = h
history h (call ∷ calls) = history (note h call) calls

-- The readings of the clock never go back, starting from `now`.
abbrev pub Ordered : ℕ → List Call → Type 0
Ordered now [] = Unit
Ordered now (has_call n t u v ∷ calls) = (now ≤ t) × (t ≤ u) × (u ≤ v) × Ordered v calls
Ordered now (add_call n t u v ∷ calls) = (now ≤ t) × (t ≤ u) × (u ≤ v) × Ordered v calls
Ordered now (size_call u ∷ calls) = (now ≤ u) × Ordered u calls

abbrev pub last_reading : ℕ → List Call → ℕ
last_reading now [] = now
last_reading now (has_call n t u v ∷ calls) = last_reading v calls
last_reading now (add_call n t u v ∷ calls) = last_reading v calls
last_reading now (size_call u ∷ calls) = last_reading u calls

-- A nonce added at the given time is inside the retention window.
pub within : ℕ → ℕ → Option ℕ → Bool
within retain now none = false
within retain now (some t) = ltb now (t + retain)

live : ℕ → ℕ → Option ℕ → Option ℕ
live retain now = keep_if (λ t. ltb now (t + retain))

live_mono :
    (r now later : ℕ) (a b : Option ℕ)
    → now ≤ later
    → live r now a ≡ live r now b
    → live r later a ≡ live r later b
unfolding live keep_if
live_mono r now later none none h e = refl
live_mono r now later none (some y) h e = ground arith
live_mono r now later (some x) none h e = ground arith
live_mono r now later (some x) (some y) h e = ground arith

record Tracks (c : NonceCache) (h : History) (now : ℕ) : Type 0 where
  nodup : Dict.NodupKeys c.entries
  agree : (n : String) → live c.retain_ms now (Dict.lookup n c.entries) ≡ live c.retain_ms now (h n)

live-prune :
    (c : NonceCache) (u : ℕ) (o : Option ℕ)
    → live c.retain_ms u (keep_if (λ t. not (is_expired c u t)) o) ≡ live c.retain_ms u o
unfolding live keep_if is_expired
live-prune c u none = refl
live-prune c u (some t) = ground arith

Tracks-later :
    (c : NonceCache) (h : History) {now later : ℕ} → now ≤ later → Tracks c h now → Tracks c h later
Tracks-later c h le t = record {
  nodup = t.nodup;
  agree = λ n. live_mono c.retain_ms _ _ (Dict.lookup n c.entries) (h n) le (t.agree n);
}

Tracks-prune : (c : NonceCache) (h : History) (u : ℕ) → Tracks c h u → Tracks (prune c u) h u
unfolding prune
Tracks-prune c h u t = record {
  nodup = Dict.retain-NodupKeys _ c.entries t.nodup;
  agree = λ n.
      ap (live c.retain_ms u) (Dict.lookup-retain _ n c.entries t.nodup)
      ∙ live-prune c u (Dict.lookup n c.entries)
      ∙ t.agree n;
}

Tracks-maybe_prune :
    (c : NonceCache) (h : History) {t u : ℕ} → t ≤ u → Tracks c h t → Tracks (maybe_prune c t u) h u
unfolding maybe_prune
Tracks-maybe_prune c h {t} {u} le k = elim (Bool-cases (leb (c.last_prune + c.prune_every_ms) t)) [
  | inl due ↦ rw (due, maybe_prune) (Tracks-prune c h u (Tracks-later c h le k))
  | inr not_due ↦ rw (not_due, maybe_prune) (Tracks-later c h le k)
]

Tracks-add :
    (c : NonceCache) (h : History) (n : String) (v : ℕ)
    → Tracks c h v
    → Tracks
        (record c { entries = Dict.insert n v c.entries })
        (λ j. if j == n then some v else h j)
        v
Tracks-add c h n v t = record {
  nodup = Dict.insert-NodupKeys n v c.entries t.nodup;
  agree = λ j.
      rw (Dict.lookup-insert j n v c.entries)
        (elim (Bool-cases (j == n)) [ inl same ↦ rw same refl | inr other ↦ rw other (t.agree j) ]);
}

Tracks-run :
    (calls : List Call) (c : NonceCache) (h : History) {now : ℕ}
    → Ordered now calls
    → Tracks c h now
    → Tracks (run c calls) (history h calls) (last_reading now calls)
unfolding run history has add size
Tracks-run [] c h o t = t
Tracks-run (has_call n t u v ∷ calls) c h o k =
    Tracks-run calls _ h o.3
      (Tracks-later _ h o.2 (Tracks-maybe_prune c h o.1 (Tracks-later c h o.0 k)))
Tracks-run (add_call n t u v ∷ calls) c h o k = Tracks-run calls _ _ o.3 (
    Tracks-add _ h n v (Tracks-later _ h o.2 (Tracks-maybe_prune c h o.1 (Tracks-later c h o.0 k))))
Tracks-run (size_call u ∷ calls) c h o k =
    Tracks-run calls _ h o.1 (Tracks-prune c h u (Tracks-later c h o.0 k))

retain_ms-maybe_prune : (c : NonceCache) (t u : ℕ) → (maybe_prune c t u).retain_ms ≡ c.retain_ms
unfolding maybe_prune
retain_ms-maybe_prune c t u = ground arith

retain_ms-run : (calls : List Call) (c : NonceCache) → (run c calls).retain_ms ≡ c.retain_ms
unfolding run has add size
retain_ms-run [] c = refl
retain_ms-run (has_call n t u v ∷ calls) c = retain_ms-run calls _ ∙ retain_ms-maybe_prune c t u
retain_ms-run (add_call n t u v ∷ calls) c = retain_ms-run calls _ ∙ retain_ms-maybe_prune c t u
retain_ms-run (size_call u ∷ calls) c = retain_ms-run calls _

remembered-live :
    (c : NonceCache) (v : ℕ) (a b : Option ℕ)
    → live c.retain_ms v a ≡ live c.retain_ms v b
    → is_remembered c a v ≡ within c.retain_ms v b
unfolding live keep_if is_remembered within
remembered-live c v none none e = refl
remembered-live c v none (some y) e = ground arith
remembered-live c v (some x) none e = ground arith
remembered-live c v (some x) (some y) e = ground arith

abbrev pub nothing : History
nothing n = none

-- From a new cache, after any calls whose clock readings never go back, `has` answers exactly
-- whether the nonce was last added less than the retention time before the reading: pruning is
-- never observable.
pub has-history :
    (max_age : Option ℕ) (now : ℕ) (calls : List Call) (n : String) (t u v : ℕ)
    → Ordered now calls
    → last_reading now calls ≤ t
    → t ≤ u
    → u ≤ v
    → (has (run (init max_age now) calls) n t u v).1
      ≡ within (2 * or_default max_age (5 * 60 * 1000)) v (history nothing calls n)
unfolding has init Dict.lookup
has-history max_age now calls n t u v o le₁ le₂ le₃ =
    let c = run (init max_age now) calls in
    let h = history nothing calls in
    let start : Tracks (init max_age now) nothing now = record { nodup = tt; agree = λ n. refl } in
    let k =
      Tracks-later _ h le₃
        (Tracks-maybe_prune c h le₂ (Tracks-later c h le₁ (Tracks-run calls _ nothing o start))) in
    remembered-live (maybe_prune c t u) v _ (h n) (k.agree n)
    ∙ ap (λ r. within r v (h n)) (retain_ms-maybe_prune c t u ∙ retain_ms-run calls _)

history-later :
    (calls : List Call) (h : History) (n : String) {now w t : ℕ}
    → Ordered now calls
    → t ≤ now
    → w ≤ t
    → h n ≡ some t
    → (t' : ℕ) × (history h calls n ≡ some t') × (w ≤ t')
unfolding history
history-later [] h n {now} {w} {t} o le w≤t e = (t, e, w≤t)
history-later (has_call m t u v ∷ calls) h n o le w≤t e =
    history-later calls h n o.3 (omega arith) w≤t e
history-later (add_call m t u v ∷ calls) h n o le w≤t e = elim (Bool-cases (n == m)) [
  | inl same ↦ history-later calls _ n {t = v} o.3 (omega arith) (omega arith) (rw same refl)
  | inr other ↦ history-later calls _ n o.3 (omega arith) w≤t (rw other e)
]
history-later (size_call u ∷ calls) h n o le w≤t e = history-later calls h n o.1 (omega arith) w≤t e

-- The acceptance window of a proof: its timestamp is at most the age away from the clock.
abbrev pub IsFresh : ℕ → ℕ → ℕ → Type 0
IsFresh age timestamp now = (now ≤ timestamp + age) × (timestamp ≤ now + age)

history-append :
    (h : History) (before after : List Call)
    → history h (before ++ after) ≡ history (history h before) after
unfolding history
history-append h [] after = refl
history-append h (call ∷ before) after = history-append (note h call) before after

Ordered-append :
    (before after : List Call) (now : ℕ)
    → Ordered now (before ++ after)
    → (middle : ℕ) × Ordered middle after
Ordered-append [] after now o = (now, o)
Ordered-append (has_call n t u v ∷ before) after now o = Ordered-append before after v o.3
Ordered-append (add_call n t u v ∷ before) after now o = Ordered-append before after v o.3
Ordered-append (size_call u ∷ before) after now o = Ordered-append before after u o.1

-- A proof that was recorded at one reading while fresh is recognised at every later reading at
-- which it is still fresh, whatever calls came before and between, unless the two readings are the
-- two ends of the window (exactly twice the maximal age apart).
pub has-add :
    (max_age : Option ℕ) (now : ℕ) (before after : List Call) (n : String)
    (timestamp t u v t' u' v' : ℕ)
    → let age = or_default max_age (5 * 60 * 1000) in
      let calls = before ++ (add_call n t u v ∷ after) in
      Ordered now calls
      → last_reading now calls ≤ t'
      → t' ≤ u'
      → u' ≤ v'
      → IsFresh age timestamp v
      → IsFresh age timestamp v'
      → ¬ (v' ≡ v + 2 * age)
      → (has (run (init max_age now) calls) n t' u' v').1 ≡ true
unfolding history within
has-add max_age now before after n timestamp t u v t' u' v' o le₁ le₂ le₃ fresh fresh' inside =
    let calls = before ++ (add_call n t u v ∷ after) in
    let (middle, o') = Ordered-append before (add_call n t u v ∷ after) now o in
    let h = history nothing before in
    let (w, found, later) =
      history-later after (note h (add_call n t u v)) n {now = v} {w = v} {t = v} o'.3 (omega arith)
        (omega arith) (ground arith) in
    has-history max_age now calls n t' u' v' o le₁ le₂ le₃
    ∙ rw (history-append nothing before (add_call n t u v ∷ after), found) (ground arith)
