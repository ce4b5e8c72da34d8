-- ===== src/NotifyAuth/Nonces.antt =====
-- `checkAndRecord` against the history of its accepted calls.
use tyo_mq.Prelude.{
  ℕ, ◌+◌, ◌≤◌, true, Option, none, some, List, [], ◌∷◌, ◌≡◌, refl, ap, ◌∙◌, ltb, not, length,
  or_default, if◌then◌else◌, ◌==◌, codes_eq, arith, Bool-cases, inl, inr,
}
use tyo_mq.Prelude.Dict
use tyo_mq.Prelude.Dict.{keep_if}
use tyo_mq.NotifyAuth.{
  NonceSeen, init, sweep, nonce_key, is_replay, check_and_record, signature_max_age_ms,
}

-- One call: the topic, the nonce and the reading of the clock.
pub record Check : Type 0 where
  pub topic : List ℕ
  pub nonce : List ℕ
  pub now : ℕ

unfoldable pub run : NonceSeen → List Check → NonceSeen
run s [] = s
run s (call ∷ calls) = run (check_and_record s call.topic call.nonce call.now).0 calls

-- Until when each key is refused: the time-to-live past the last accepted call.
abbrev pub History : Type 0
History = List ℕ → Option ℕ

unfoldable pub note : ℕ → History → Check → History
note ttl h call =
    let key = nonce_key call.topic call.nonce in
    if is_replay (h key) call.now then h else (λ k. if k == key then some (call.now + ttl) else h k)

unfoldable pub history : ℕ → History → List Check → History
history ttl h [] = h
history ttl h (call ∷ calls) = history ttl (note ttl h call) calls

abbrev pub Ordered : ℕ → List Check → Type 0
Ordered now [] = Unit
Ordered now (call ∷ calls) = (now ≤ call.now) × Ordered call.now calls

abbrev pub last_reading : ℕ → List Check → ℕ
last_reading now [] = now
last_reading now (call ∷ calls) = last_reading call.now calls

live : ℕ → Option ℕ → Option ℕ
live now = keep_if (λ exp. not (ltb exp now))

live_mono :
    (now later : ℕ) (a b : Option ℕ)
    → now ≤ later
    → live now a ≡ live now b
    → live later a ≡ live later b
unfolding live keep_if
live_mono now later none none h e = refl
live_mono now later none (some y) h e = ground arith
live_mono now later (some x) none h e = ground arith
live_mono now later (some x) (some y) h e = ground arith

live-live : (now : ℕ) (o : Option ℕ) → live now (live now o) ≡ live now o
unfolding live keep_if
live-live now none = refl
live-live now (some x) = ground arith

is_replay-live :
    (now : ℕ) (a b : Option ℕ) → live now a ≡ live now b → is_replay a now ≡ is_replay b now
unfolding live keep_if is_replay
is_replay-live now none none e = refl
is_replay-live now none (some y) e = ground arith
is_replay-live now (some x) none e = ground arith
is_replay-live now (some x) (some y) e = ground arith

record Tracks (s : NonceSeen) (ttl : ℕ) (h : History) (now : ℕ) : Type 0 where
  ttl_ms : s.ttl_ms ≡ ttl
  nodup : Dict.NodupKeys s.seen
  agree : (k : List ℕ) → live now (Dict.lookup k s.seen) ≡ live now (h k)

module _ (ttl : ℕ) where
  Tracks-sweep :
      (s : NonceSeen) (h : History) {now later : ℕ}
      → now ≤ later
      → Tracks s ttl h now
      → Tracks (sweep s later) ttl h later
  unfolding sweep keep_if live
  Tracks-sweep s h {now} {later} le t = elim (Bool-cases (ltb (length s.seen) 5000)) [
    | inl small ↦
        rw (small, sweep)
          (record {
            ttl_ms = t.ttl_ms;
            nodup = t.nodup;
            agree = λ k. live_mono now later (Dict.lookup k s.seen) (h k) le (t.agree k);
          })
    | inr large ↦
        rw (large, sweep)
          (record {
            ttl_ms = t.ttl_ms;
            nodup = Dict.retain-NodupKeys _ s.seen t.nodup;
            agree = λ k.
                ap (live later) (Dict.lookup-retain (λ _ exp. not (ltb exp later)) k s.seen t.nodup)
                ∙ live-live later (Dict.lookup k s.seen)
                ∙ live_mono now later (Dict.lookup k s.seen) (h k) le (t.agree k);
          })
  ]

  Tracks-insert :
      (s : NonceSeen) (h : History) (key : List ℕ) (now : ℕ)
      → Tracks s ttl h now
      → Tracks
          (record s { seen = Dict.insert key (now + s.ttl_ms) s.seen })
          ttl
          (λ k. if k == key then some (now + ttl) else h k)
          now
  Tracks-insert s h key now t = record {
    ttl_ms = t.ttl_ms;
    nodup = Dict.insert-NodupKeys key _ s.seen t.nodup;
    agree = λ k.
        rw (Dict.lookup-insert k key (now + s.ttl_ms) s.seen, t.ttl_ms)
          (elim (Bool-cases (k == key)) [
            | inl same ↦ rw same refl
            | inr other ↦ rw other (t.agree k)
          ]);
  }

  check_and_record-Tracks :
      (s : NonceSeen) (h : History) (call : Check) {now : ℕ}
      → now ≤ call.now
      → Tracks s ttl h now
      → Tracks (check_and_record s call.topic call.nonce call.now).0 ttl (note ttl h call) call.now
        × ((check_and_record s call.topic call.nonce call.now).1
            ≡ not (is_replay (h (nonce_key call.topic call.nonce)) call.now))
  unfolding check_and_record note
  check_and_record-Tracks s h call le t =
      let key = nonce_key call.topic call.nonce in
      let s' = sweep s call.now in
      let t' = Tracks-sweep s h le t in
      let same = is_replay-live call.now (Dict.lookup key s'.seen) (h key) (t'.agree key) in
      elim (Bool-cases (is_replay (h key) call.now)) [
        | inl replay ↦ rw (same, replay) (t', refl)
        | inr fresh ↦ rw (same, fresh) (Tracks-insert s' h key call.now t', refl)
      ]

  run-Tracks :
      (calls : List Check) (s : NonceSeen) (h : History) {now : ℕ}
      → Ordered now calls
      → Tracks s ttl h now
      → Tracks (run s calls) ttl (history ttl h calls) (last_reading now calls)
  unfolding run history
  run-Tracks [] s h o t = t
  run-Tracks (call ∷ calls) s h o t =
      run-Tracks calls _ _ o.1 (check_and_record-Tracks s h call o.0 t).0

abbrev pub nothing : History
nothing k = none

-- From a new store, after any calls whose clock readings never go back, a call is accepted exactly
-- unless a call with the same key was accepted at most the time-to-live before: the sweep of large
-- stores is never observable.
pub check_and_record-history :
    (ttl_option : Option ℕ) (calls : List Check) (topic nonce : List ℕ) (start now : ℕ)
    → Ordered start calls
    → last_reading start calls ≤ now
    → let ttl = or_default ttl_option signature_max_age_ms in
      (check_and_record (run (init ttl_option) calls) topic nonce now).1
      ≡ not (is_replay (history ttl nothing calls (nonce_key topic nonce)) now)
unfolding init Dict.lookup
check_and_record-history ttl_option calls topic nonce start now o le =
    let ttl = or_default ttl_option signature_max_age_ms in
    let t₀ : Tracks (init ttl_option) ttl nothing start = record {
      ttl_ms = refl;
      nodup = tt;
      agree = λ k. refl;
    } in
    let call : Check = record { topic = topic; nonce = nonce; now = now } in
    (check_and_record-Tracks ttl _ _ call le (run-Tracks ttl calls _ nothing o t₀)).1

-- After an accepted call, in every store, the same topic and nonce are accepted at the next call
-- exactly when the time-to-live is over.
pub check_and_record_twice :
    (s : NonceSeen) (topic nonce : List ℕ) (now later : ℕ)
    → Dict.NodupKeys s.seen
    → (check_and_record s topic nonce now).1 ≡ true
    → now ≤ later
    → (check_and_record (check_and_record s topic nonce now).0 topic nonce later).1
      ≡ ltb (now + s.ttl_ms) later
unfolding note is_replay
check_and_record_twice s topic nonce now later n accepted le =
    let h : History = λ k. Dict.lookup k s.seen in
    let t : Tracks s s.ttl_ms h now = record { ttl_ms = refl; nodup = n; agree = λ k. refl } in
    let first : Check = record { topic = topic; nonce = nonce; now = now } in
    let second : Check = record { topic = topic; nonce = nonce; now = later } in
    let (t', answer) = check_and_record-Tracks s.ttl_ms s h first (omega arith) t in
    let (_, answer') = check_and_record-Tracks s.ttl_ms _ (note s.ttl_ms h first) second le t' in
    answer' ∙ ground arith
