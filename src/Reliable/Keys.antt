-- ===== src/Reliable/Keys.antt =====
-- `pendingAcks` has one entry for an id, and it is about the message with that id.
use tyo_mq.Prelude.{
  ℕ, ◌+◌, String, Bool, true, false, Option, none, some, List, [], ◌∷◌, refl, not, ◌==◌, ==_refl,
  string_eq, nat_eq, arith, Option-cases, inl, inr,
}
use tyo_mq.Prelude.Dict
use tyo_mq.Prelude.Dict.{
  AllEntries, Dict, NodupKeys, erase-AllEntries, insert-AllEntries, lookup-AllEntries,
  retain-AllTrue,
}
use tyo_mq.Reliable.{
  DurableEntry, Server, init, socket_of, pending_of, deliver_to, deliver, enqueue_and_deliver,
  expire, ack_timeout, pick, retry_picked, retry, replay_entry, replay_entries, replay, ack_found,
  ack, disconnect, connect, subscribe,
}
use tyo_mq.Reliable.Calls.{
  Call, send_call, replay_call, timeout_call, retry_call, ack_call, disconnect_call, connect_call,
  subscribe_call, step, run,
}
use tyo_mq.Reliable.Rules.{Tests, IsKept, AllOk, AllowsAll, AllowsCalls}
use tyo_mq.Reliable.Invariant.{run-Result}

module _ {P : Type 0} where
  abbrev pub keyed : Tests P
  keyed = record {
    sub_ok = λ sub. true;
    attempt_ok = λ entry attempt. true;
    pending_ok = λ id p. p.entry.id == id;
    retry_ok = λ r. true;
    effect_ok = λ e. true;
  }

  keyed-IsKept : IsKept keyed
  unfolding pending_of
  keyed-IsKept = record {
    sent = λ entry ref consumer attempt sub socket h h'. (==_refl entry.id, refl);
    replayed = λ entry socket h. (refl, refl);
    given_up = λ id p h h'. refl;
    delayed = λ id p h h'. refl;
    resent = λ r h. refl;
    acked = λ id p h. refl;
  }

  allows_all : (entries : List (DurableEntry P)) → AllowsAll keyed entries
  allows_all [] = tt
  allows_all (entry ∷ entries) = (refl, allows_all entries)

  allows_calls : (cs : List (Call P)) → AllowsCalls keyed cs
  allows_calls [] = tt
  allows_calls (send_call none entry ref consumer ∷ cs) = (tt, allows_calls cs)
  allows_calls (send_call (some id) entry ref consumer ∷ cs) = (refl, allows_calls cs)
  allows_calls (replay_call entries ref consumer ∷ cs) = (allows_all entries, allows_calls cs)
  allows_calls (timeout_call id ∷ cs) = (tt, allows_calls cs)
  allows_calls (retry_call n ∷ cs) = (tt, allows_calls cs)
  allows_calls (ack_call socket id stored ∷ cs) = (tt, allows_calls cs)
  allows_calls (disconnect_call socket ∷ cs) = (tt, allows_calls cs)
  allows_calls (connect_call consumer socket ∷ cs) = (tt, allows_calls cs)
  allows_calls (subscribe_call ref sub ∷ cs) = (refl, allows_calls cs)

  init-AllOk : AllOk keyed (init {P = P})
  unfolding init
  init-AllOk = record { subs = tt; waiting = tt; delays = tt }

  pub run-keyed : (cs : List (Call P)) → AllOk keyed (run init cs).0
  run-keyed cs = (run-Result keyed keyed-IsKept init cs (allows_calls cs) init-AllOk).0

  deliver-NodupKeys :
      (s : Server P) (entry : DurableEntry P) (ref consumer attempt : ℕ)
      → NodupKeys s.pending
      → NodupKeys (deliver s entry ref consumer attempt).0.pending
  unfolding deliver deliver_to
  deliver-NodupKeys s entry ref consumer attempt n =
      elim (Option-cases (Dict.lookup ref s.subscriptions)) [
        | inl e ↦ rw e n
        | inr (sub, e) ↦ elim (Option-cases (socket_of (Dict.lookup consumer s.consumers))) [
          | inl f ↦ rw (e, f) n
          | inr (socket, f) ↦
              rw (e, f)
                (Dict.insert-NodupKeys entry.id (pending_of entry ref sub consumer socket attempt)
                  s.pending n)
        ]
      ]

  replay-NodupKeys :
      (s : Server P) (entries : List (DurableEntry P)) (ref consumer : ℕ) (required : Bool)
      → NodupKeys s.pending
      → NodupKeys (replay_entries s entries ref consumer required).0.pending
  unfolding replay_entries replay_entry
  replay-NodupKeys s [] ref consumer required n = n
  replay-NodupKeys s (entry ∷ entries) ref consumer true n =
      elim (Option-cases (socket_of (Dict.lookup consumer s.consumers))) [
        | inl e ↦ rw e (replay-NodupKeys s entries ref consumer true n)
        | inr (socket, e) ↦ rw e (
            replay-NodupKeys (deliver s entry ref consumer 1).0 entries ref consumer true
              (deliver-NodupKeys s entry ref consumer 1 n))
      ]
  replay-NodupKeys s (entry ∷ entries) ref consumer false n =
      elim (Option-cases (socket_of (Dict.lookup consumer s.consumers))) [
        | inl e ↦ rw e (replay-NodupKeys s entries ref consumer false n)
        | inr (socket, e) ↦ rw e (replay-NodupKeys s entries ref consumer false n)
      ]

  timeout-NodupKeys :
      (s : Server P) (id : String) → NodupKeys s.pending → NodupKeys (ack_timeout s id).0.pending
  unfolding ack_timeout expire
  timeout-NodupKeys s id n = let n' = Dict.erase-NodupKeys id s.pending n in ground (arith, n, n')

  retry-NodupKeys : (s : Server P) (i : ℕ) → NodupKeys s.pending → NodupKeys (retry s i).0.pending
  unfolding retry retry_picked
  retry-NodupKeys s i n = elim (Option-cases (pick i s.retries)) [
    | inl e ↦ rw e n
    | inr ((r, rest), e) ↦ rw e (
        deliver-NodupKeys (record s { retries = rest }) r.entry r.subscription r.consumer
          (r.attempt + 1) n)
  ]

  ack-NodupKeys :
      (s : Server P) (socket : String) (id : Option String) (stored : Bool)
      → NodupKeys s.pending
      → NodupKeys (ack s socket id stored).0.pending
  unfolding ack ack_found
  ack-NodupKeys s socket none stored n = n
  ack-NodupKeys s socket (some id) stored n =
      let n' = Dict.erase-NodupKeys id s.pending n in ground (arith, n, n')

  step-NodupKeys :
      (s : Server P) (c : Call P) → NodupKeys s.pending → NodupKeys (step s c).0.pending
  unfolding step enqueue_and_deliver replay disconnect connect subscribe
  step-NodupKeys s (send_call none entry ref consumer) n = n
  step-NodupKeys s (send_call (some id) entry ref consumer) n =
      deliver-NodupKeys s (record entry { id = id }) ref consumer 1 n
  step-NodupKeys s (replay_call entries ref consumer) n =
      elim (Option-cases (Dict.lookup ref s.subscriptions)) [
        | inl e ↦ rw (e, replay) n
        | inr (sub, e) ↦ rw (e, replay) (replay-NodupKeys s entries ref consumer sub.ack_required n)
      ]
  step-NodupKeys s (timeout_call id) n = timeout-NodupKeys s id n
  step-NodupKeys s (retry_call i) n = retry-NodupKeys s i n
  step-NodupKeys s (ack_call socket id stored) n = ack-NodupKeys s socket id stored n
  step-NodupKeys s (disconnect_call socket) n =
      Dict.retain-NodupKeys (λ id p. not (p.socket == socket)) s.pending n
  step-NodupKeys s (connect_call consumer socket) n = n
  step-NodupKeys s (subscribe_call ref sub) n = n

  run-NodupKeys :
      (s : Server P) (cs : List (Call P)) → NodupKeys s.pending → NodupKeys (run s cs).0.pending
  unfolding run
  run-NodupKeys s [] n = n
  run-NodupKeys s (c ∷ cs) n = run-NodupKeys (step s c).0 cs (step-NodupKeys s c n)

  pub run-init-NodupKeys : (cs : List (Call P)) → NodupKeys (run init cs).0.pending
  unfolding init
  run-init-NodupKeys cs = run-NodupKeys init cs tt
