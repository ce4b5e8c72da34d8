-- ===== src/NotifyAuth/Gate.antt =====
-- The gate of claimed topics: a proof of key possession is used once, and when it can be used again.
use tyo_mq.Prelude.{
  ℕ, ◌+◌, ◌≤◌, ◌<◌, Bool, true, false, Option, some, List, [], ◌∷◌, ◌≡◌, refl, ap, sym, ◌∙◌, ltb,
  leb, not, length, ◌==◌, eq_of_==, ==_refl, codes_eq, arith, Bool-cases, Option-cases, inl, inr,
}
use tyo_mq.Prelude.Dict
use tyo_mq.Prelude.Dict.{keep_if}
use tyo_mq.NotifyAuth.{
  Crypto, Proof, Timestamp, NonceSeen, verify_proof, sweep, nonce_key, is_replay, check_and_record,
  proof_rejected, signature_max_age_ms,
}
use tyo_mq.NotifyAuth.Nonces.{check_and_record_twice}

-- Of an accepted proof both checks passed.
accepted_parts :
    (c : Crypto) (s : NonceSeen) (pubkey action topic : List ℕ) (body : c.Body) (proof : Proof)
    (t u : ℕ)
    → (proof_rejected c s (some pubkey) action topic body proof t u).1 ≡ false
    → (verify_proof c pubkey action body proof t ≡ true)
      × ((check_and_record s topic proof.nonce u).1 ≡ true)
      × ((proof_rejected c s (some pubkey) action topic body proof t u).0
          ≡ (check_and_record s topic proof.nonce u).0)
unfolding proof_rejected
accepted_parts c s pubkey action topic body proof t u h = ground arith

-- One proof that the gate sees: the claim of its topic, what it is for, and the readings of the clock
-- of its two checks.
pub record Attempt (c : Crypto) : Type 0 where
  pub claim : Option (List ℕ)
  pub action : List ℕ
  pub topic : List ℕ
  pub body : c.Body
  pub proof : Proof
  pub verified_at : ℕ
  pub recorded_at : ℕ

abbrev pub reject : (c : Crypto) → NonceSeen → Attempt c → NonceSeen × Bool
reject c s a =
    proof_rejected c s a.claim a.action a.topic a.body a.proof a.verified_at a.recorded_at

unfoldable pub run : (c : Crypto) → NonceSeen → List (Attempt c) → NonceSeen
run c s [] = s
run c s (a ∷ more) = run c (reject c s a).0 more

abbrev pub AllBefore : (c : Crypto) → ℕ → List (Attempt c) → Type 0
AllBefore c limit [] = Unit
AllBefore c limit (a ∷ more) = (a.recorded_at ≤ limit) × AllBefore c limit more

-- The key is refused up to the time `limit`.
record Blocks (key : List ℕ) (limit : ℕ) (s : NonceSeen) : Type 0 where
  nodup : Dict.NodupKeys s.seen
  kept : Dict.lookup key s.seen ≡ some limit

module _ (key : List ℕ) (limit : ℕ) where
  sweep-Blocks :
      (s : NonceSeen) (now : ℕ) → now ≤ limit → Blocks key limit s → Blocks key limit (sweep s now)
  unfolding sweep keep_if
  sweep-Blocks s now le b = elim (Bool-cases (ltb (length s.seen) 5000)) [
    | inl small ↦ rw (small, sweep) b
    | inr large ↦
        let still : ltb limit now ≡ false = ground arith in
        rw (large, sweep)
          (record {
            nodup = Dict.retain-NodupKeys _ s.seen b.nodup;
            kept =
                Dict.lookup-retain (λ _ exp. not (ltb exp now)) key s.seen b.nodup
                ∙ rw b.kept (rw still refl);
          })
  ]

  check_and_record-Blocks :
      (s : NonceSeen) (topic nonce : List ℕ) (now : ℕ)
      → now ≤ limit
      → Blocks key limit s
      → Blocks key limit (check_and_record s topic nonce now).0
  unfolding check_and_record is_replay
  check_and_record-Blocks s topic nonce now le b =
      let s' = sweep s now in
      let k = nonce_key topic nonce in
      let b' = sweep-Blocks s now le b in
      elim (Bool-cases (is_replay (Dict.lookup k s'.seen) now)) [
        | inl replay ↦ rw replay b'
        | inr fresh ↦
            let other : (key == k) ≡ false = fresh_differs s' k now le b' fresh in
            rw fresh (record {
              nodup = Dict.insert-NodupKeys k _ s'.seen b'.nodup;
              kept = Dict.lookup-insert key k (now + s'.ttl_ms) s'.seen ∙ rw other b'.kept;
            })
      ]
    where
      fresh_differs :
          (s' : NonceSeen) (k : List ℕ) (now : ℕ)
          → now ≤ limit
          → Blocks key limit s'
          → is_replay (Dict.lookup k s'.seen) now ≡ false
          → (key == k) ≡ false
      fresh_differs s' k now le b' fresh = elim (Bool-cases (key == k)) [
        | inr other ↦ other
        | inl same ↦
            let held : Dict.lookup k s'.seen ≡ some limit =
              ap (λ j. Dict.lookup j s'.seen) (sym (eq_of_== key k same)) ∙ b'.kept in
            let refused : leb now limit ≡ false = rw held at fresh in absurd (ground arith)
      ]

  reject-Blocks :
      (c : Crypto) (s : NonceSeen) (a : Attempt c)
      → a.recorded_at ≤ limit
      → Blocks key limit s
      → Blocks key limit (reject c s a).0
  unfolding proof_rejected
  reject-Blocks c s a le b = elim (Option-cases a.claim) [
    | inl unclaimed ↦ rw unclaimed b
    | inr (pubkey, claimed) ↦
        elim (Bool-cases (verify_proof c pubkey a.action a.body a.proof a.verified_at)) [
          | inl valid ↦
              rw (claimed, valid)
                (check_and_record-Blocks s a.topic a.proof.nonce a.recorded_at le b)
          | inr invalid ↦ rw (claimed, invalid) b
        ]
  ]

  run-Blocks :
      (c : Crypto) (s : NonceSeen) (more : List (Attempt c))
      → AllBefore c limit more
      → Blocks key limit s
      → Blocks key limit (run c s more)
  unfolding run
  run-Blocks c s [] before b = b
  run-Blocks c s (a ∷ more) before b =
      run-Blocks c (reject c s a).0 more before.1 (reject-Blocks c s a before.0 b)

sweep-NodupKeys :
    (s : NonceSeen) (now : ℕ)
    → Dict.NodupKeys s.seen
    → Dict.NodupKeys (sweep s now).seen × ((sweep s now).ttl_ms ≡ s.ttl_ms)
unfolding sweep
sweep-NodupKeys s now n = elim (Bool-cases (ltb (length s.seen) 5000)) [
  | inl small ↦ rw (small, sweep) (n, refl)
  | inr large ↦ rw (large, sweep) (Dict.retain-NodupKeys _ s.seen n, refl)
]

accepted-Blocks :
    (s : NonceSeen) (topic nonce : List ℕ) (now : ℕ)
    → Dict.NodupKeys s.seen
    → (check_and_record s topic nonce now).1 ≡ true
    → Blocks (nonce_key topic nonce) (now + s.ttl_ms) (check_and_record s topic nonce now).0
unfolding check_and_record is_replay
accepted-Blocks s topic nonce now n accepted =
    let s' = sweep s now in
    let k = nonce_key topic nonce in
    let (n', ttl) = sweep-NodupKeys s now n in
    elim (Bool-cases (is_replay (Dict.lookup k s'.seen) now)) [
      | inl replay ↦ let no : false ≡ true = rw replay at accepted in absurd (ground (arith, no))
      | inr fresh ↦ rw fresh (record {
        nodup = Dict.insert-NodupKeys k _ s'.seen n';
        kept =
            Dict.lookup-insert k k (now + s'.ttl_ms) s'.seen
            ∙ rw (==_refl k) (ap (λ t. some (now + t)) ttl);
      })
    ]

blocked_again :
    (s : NonceSeen) (topic nonce : List ℕ) (limit now : ℕ)
    → Blocks (nonce_key topic nonce) limit s
    → now ≤ limit
    → (check_and_record s topic nonce now).1 ≡ false
unfolding check_and_record is_replay
blocked_again s topic nonce limit now b le =
    let b' = sweep-Blocks (nonce_key topic nonce) limit s now le b in
    let replay : leb now limit ≡ true = ground arith in rw b'.kept (rw replay refl)

-- On a claimed topic a proof is accepted once within the time-to-live of its nonce: whatever proofs
-- are shown in between, for whatever topics, actions and bodies, any proof for the topic with the same
-- nonce is rejected until the time-to-live is over. All readings of the clock in between are within it.
pub proof_rejected_twice :
    (c : Crypto) (s : NonceSeen) (first again : Attempt c) (between : List (Attempt c))
    (pubkey pubkey' : List ℕ)
    → Dict.NodupKeys s.seen
    → first.claim ≡ some pubkey
    → again.claim ≡ some pubkey'
    → again.topic ≡ first.topic
    → again.proof.nonce ≡ first.proof.nonce
    → (reject c s first).1 ≡ false
    → AllBefore c (first.recorded_at + s.ttl_ms) between
    → again.recorded_at ≤ first.recorded_at + s.ttl_ms
    → (reject c (run c (reject c s first).0 between) again).1 ≡ true
unfolding proof_rejected
proof_rejected_twice c s first again between pubkey pubkey' n claimed claimed' topic nonce accepted
      before inside =
    let limit = first.recorded_at + s.ttl_ms in
    let key = nonce_key first.topic first.proof.nonce in
    let accepted' = rw claimed at accepted in
    let parts =
      accepted_parts c s pubkey first.action first.topic first.body first.proof first.verified_at
        first.recorded_at accepted' in
    let blocks : Blocks key limit (reject c s first).0 =
      rw (claimed, parts.2)
        (accepted-Blocks s first.topic first.proof.nonce first.recorded_at n parts.1) in
    let later = run-Blocks key limit c (reject c s first).0 between before blocks in
    let known =
      blocked_again (run c (reject c s first).0 between) first.topic first.proof.nonce limit
        again.recorded_at later inside in
    rw (claimed', topic, nonce) (ground (arith, known))

-- The freshness of a proof is the only part of its verification that the clock changes.
verify_proof-later :
    (c : Crypto) (pubkey action : List ℕ) (body : c.Body) (proof : Proof) (timestamp t t' : ℕ)
    → proof.timestamp ≡ Timestamp.at timestamp
    → verify_proof c pubkey action body proof t ≡ true
    → t ≤ t'
    → t' ≤ timestamp + signature_max_age_ms
    → verify_proof c pubkey action body proof t' ≡ true
unfolding verify_proof
verify_proof-later c pubkey action body proof timestamp t t' e h le fresh = ground arith

-- The window of replay: an accepted proof whose timestamp lies ahead of the clock is accepted a
-- second time when the time-to-live of its nonce is over while its timestamp is still fresh.
pub proof_accepted_again :
    (c : Crypto) (s : NonceSeen) (pubkey action topic : List ℕ) (body : c.Body) (proof : Proof)
    (timestamp t u t' u' : ℕ)
    → Dict.NodupKeys s.seen
    → proof.timestamp ≡ Timestamp.at timestamp
    → (proof_rejected c s (some pubkey) action topic body proof t u).1 ≡ false
    → t ≤ t'
    → t' ≤ timestamp + signature_max_age_ms
    → u + s.ttl_ms < u'
    → let s' = (proof_rejected c s (some pubkey) action topic body proof t u).0 in
      (proof_rejected c s' (some pubkey) action topic body proof t' u').1 ≡ false
unfolding proof_rejected
proof_accepted_again c s pubkey action topic body proof timestamp t u t' u' n e h le fresh past =
    let parts = accepted_parts c s pubkey action topic body proof t u h in
    rw (parts.0, verify_proof-later c pubkey action body proof timestamp t t' e parts.0 le fresh)
      (ground (arith, check_and_record_twice s topic proof.nonce u u' n parts.1 (omega arith)))
