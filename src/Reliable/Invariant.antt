-- ===== src/Reliable/Invariant.antt =====
-- Every step and every run keeps tests that fit the steps.
use tyo_mq.Prelude.{
  ℕ, zero, suc, ◌+◌, String, Bool, true, false, Option, none, some, List, [], ◌∷◌, ◌≡◌, leb, not,
  ◌==◌, string_eq, nat_eq, arith, Bool-cases, Option-cases, AllTrue, inl, inr,
}
use tyo_mq.Prelude.Dict
use tyo_mq.Prelude.{AllTrue-append}
use tyo_mq.Prelude.Dict.{
  AllEntries, Dict, erase-AllEntries, insert-AllEntries, lookup-AllEntries, retain-AllTrue,
}
use tyo_mq.Reliable.{
  Subscription, DurableEntry, Retry, Server, socket_of, pending_of, deliver_to, deliver,
  enqueue_and_deliver, retry_of, expire, ack_timeout, pick, retry_picked, retry, replay_entry,
  replay_entries, replay, ack_found, ack, disconnect, connect, subscribe,
}
use tyo_mq.Reliable.Calls.{
  Call, send_call, replay_call, timeout_call, retry_call, ack_call, disconnect_call, connect_call,
  subscribe_call, step, run,
}
use tyo_mq.Reliable.Rules.{Tests, IsKept, AllOk, Result, AllowsAll, Allows, AllowsCalls}

module _ {P : Type 0} (t : Tests P) (kept : IsKept t) where
  deliver-Result :
      (s : Server P) (entry : DurableEntry P) (ref consumer attempt : ℕ)
      → t.attempt_ok entry attempt ≡ true
      → AllOk t s
      → Result t (deliver s entry ref consumer attempt)
  unfolding deliver deliver_to
  deliver-Result s entry ref consumer attempt h ok =
      elim (Option-cases (Dict.lookup ref s.subscriptions)) [
        | inl e ↦ rw e (ok, tt)
        | inr (sub, e) ↦ elim (Option-cases (socket_of (Dict.lookup consumer s.consumers))) [
          | inl f ↦ rw (e, f) (ok, tt)
          | inr (socket, f) ↦
              let p = pending_of entry ref sub consumer socket attempt in
              let sub_fine =
                lookup-AllEntries (λ (r : ℕ) (x : Subscription). t.sub_ok x) ref sub s.subscriptions
                  ok.subs e in
              let (good, sent) = kept.sent entry ref consumer attempt sub socket sub_fine h in
              let pending' = insert-AllEntries t.pending_ok entry.id p s.pending good ok.waiting in
              rw (e, f)
                (record { subs = ok.subs; waiting = pending'; delays = ok.delays }, (sent, tt))
        ]
      ]

  timeout-Result : (s : Server P) (id : String) → AllOk t s → Result t (ack_timeout s id)
  unfolding ack_timeout expire
  timeout-Result s id ok = elim (Option-cases (Dict.lookup id s.pending)) [
    | inl e ↦ rw e (ok, tt)
    | inr (p, e) ↦
        let good = lookup-AllEntries t.pending_ok id p s.pending ok.waiting e in
        let pending' = erase-AllEntries t.pending_ok id s.pending ok.waiting in
        elim (Bool-cases (leb p.policy.max_attempts p.attempt)) [
          | inl f ↦
              rw (e, f)
                (
                  record { subs = ok.subs; waiting = pending'; delays = ok.delays },
                  (kept.given_up id p good f, tt),
                )
          | inr f ↦
              rw (e, f)
                (
                  record {
                    subs = ok.subs;
                    waiting = pending';
                    delays =
                        AllTrue-append t.retry_ok s.retries (retry_of p ∷ []) ok.delays
                          (kept.delayed id p good f, tt);
                  },
                  tt,
                )
        ]
  ]

  pick-AllTrue :
      (n : ℕ) (rs : List (Retry P)) (r : Retry P) (rest : List (Retry P))
      → AllTrue t.retry_ok rs
      → pick n rs ≡ some (r, rest)
      → (t.retry_ok r ≡ true) × AllTrue t.retry_ok rest
  unfolding pick
  pick-AllTrue n [] r rest a h = absurd (cc (h))
  pick-AllTrue zero (q ∷ rs) r rest (b, a) h = ground (arith, h, b, a)
  pick-AllTrue (suc n) (q ∷ rs) r rest (b, a) h = elim (Option-cases (pick n rs)) [
    | inl e ↦ absurd (ground (arith, e, h))
    | inr ((x, xs), e) ↦ let (c, a') = pick-AllTrue n rs x xs a e in ground (arith, e, h, b, c, a')
  ]

  retry-Result : (s : Server P) (n : ℕ) → AllOk t s → Result t (retry s n)
  unfolding retry retry_picked
  retry-Result s n ok = elim (Option-cases (pick n s.retries)) [
    | inl e ↦ rw e (ok, tt)
    | inr ((r, rest), e) ↦
        let (good, others) = pick-AllTrue n s.retries r rest ok.delays e in
        rw e (
          deliver-Result (record s { retries = rest }) r.entry r.subscription r.consumer
            (r.attempt + 1) (kept.resent r good)
            (record { subs = ok.subs; waiting = ok.waiting; delays = others }))
  ]

  replay_entry-Result :
      (s : Server P) (entry : DurableEntry P) (ref consumer : ℕ) (required : Bool)
      (socket : Option String)
      → t.attempt_ok entry 1 ≡ true
      → AllOk t s
      → Result t (replay_entry s entry ref consumer required socket)
  unfolding replay_entry
  replay_entry-Result s entry ref consumer required none h ok = (ok, tt)
  replay_entry-Result s entry ref consumer true (some socket) h ok =
      deliver-Result s entry ref consumer 1 h ok
  replay_entry-Result s entry ref consumer false (some socket) h ok =
      let (sent, acked) = kept.replayed entry socket h in (ok, (sent, (acked, tt)))

  replay_entries-Result :
      (s : Server P) (entries : List (DurableEntry P)) (ref consumer : ℕ) (required : Bool)
      → AllowsAll t entries
      → AllOk t s
      → Result t (replay_entries s entries ref consumer required)
  unfolding replay_entries
  replay_entries-Result s [] ref consumer required h ok = (ok, tt)
  replay_entries-Result s (entry ∷ entries) ref consumer required (h, hs) ok =
      let one =
        replay_entry s entry ref consumer required (socket_of (Dict.lookup consumer s.consumers)) in
      let (ok', out) =
        replay_entry-Result s entry ref consumer required
          (socket_of (Dict.lookup consumer s.consumers)) h ok in
      let (ok'', rest) = replay_entries-Result one.0 entries ref consumer required hs ok' in
      (
        ok'',
        AllTrue-append t.effect_ok one.1 (replay_entries one.0 entries ref consumer required).1 out
            rest,
      )

  replay-Result :
      (s : Server P) (entries : List (DurableEntry P)) (ref consumer : ℕ)
      → AllowsAll t entries
      → AllOk t s
      → Result t (replay s entries ref consumer)
  unfolding replay
  replay-Result s entries ref consumer h ok =
      elim (Option-cases (Dict.lookup ref s.subscriptions)) [
        | inl e ↦ rw (e, replay) (ok, tt)
        | inr (sub, e) ↦
            rw (e, replay) (replay_entries-Result s entries ref consumer sub.ack_required h ok)
      ]

  ack-Result :
      (s : Server P) (socket : String) (id : Option String) (stored : Bool)
      → AllOk t s
      → Result t ((ack s socket id stored).0, (ack s socket id stored).1)
  unfolding ack ack_found
  ack-Result s socket none stored ok = (ok, tt)
  ack-Result s socket (some id) stored ok = elim (Bool-cases (id == "")) [
    | inl e ↦ rw e (ok, tt)
    | inr e ↦ elim (Option-cases (Dict.lookup id s.pending)) [
      | inl f ↦ rw (e, f) (ok, tt)
      | inr (p, f) ↦ elim (Bool-cases (p.socket == socket)) [
        | inr g ↦ rw (e, f, g) (ok, tt)
        | inl g ↦
            let good = lookup-AllEntries t.pending_ok id p s.pending ok.waiting f in
            let pending' = erase-AllEntries t.pending_ok id s.pending ok.waiting in
            rw (e, f, g)
              (
                record { subs = ok.subs; waiting = pending'; delays = ok.delays },
                (kept.acked id p good, tt),
              )
      ]
    ]
  ]

  step-Result : (s : Server P) (c : Call P) → Allows t c → AllOk t s → Result t (step s c)
  unfolding step enqueue_and_deliver disconnect connect subscribe
  step-Result s (send_call none entry ref consumer) h ok = (ok, tt)
  step-Result s (send_call (some id) entry ref consumer) h ok =
      deliver-Result s (record entry { id = id }) ref consumer 1 h ok
  step-Result s (replay_call entries ref consumer) h ok = replay-Result s entries ref consumer h ok
  step-Result s (timeout_call id) h ok = timeout-Result s id ok
  step-Result s (retry_call n) h ok = retry-Result s n ok
  step-Result s (ack_call socket id stored) h ok = ack-Result s socket id stored ok
  step-Result s (disconnect_call socket) h ok = (
    record {
      subs = ok.subs;
      waiting = retain-AllTrue t.pending_ok (λ id p. not (p.socket == socket)) s.pending ok.waiting;
      delays = ok.delays;
    },
    tt,
  )
  step-Result s (connect_call consumer socket) h ok =
      (record { subs = ok.subs; waiting = ok.waiting; delays = ok.delays }, tt)
  step-Result s (subscribe_call ref sub) h ok = (
    record {
      subs =
          insert-AllEntries (λ (r : ℕ) (x : Subscription). t.sub_ok x) ref sub s.subscriptions h
            ok.subs;
      waiting = ok.waiting;
      delays = ok.delays;
    },
    tt,
  )

  pub run-Result :
      (s : Server P) (cs : List (Call P)) → AllowsCalls t cs → AllOk t s → Result t (run s cs)
  unfolding run
  run-Result s [] h ok = (ok, tt)
  run-Result s (c ∷ cs) (h, hs) ok =
      let (ok', out) = step-Result s c h ok in
      let (ok'', rest) = run-Result (step s c).0 cs hs ok' in
      (ok'', AllTrue-append t.effect_ok (step s c).1 (run (step s c).0 cs).1 out rest)
