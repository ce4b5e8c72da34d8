-- ===== src/Reliable/Acked.antt =====
-- What an accepted acknowledgement ends, and what it does not.
use tyo_mq.Prelude.{
  ℕ, String, Bool, true, none, some, List, [], ◌∷◌, ◌≡◌, refl, ◌∙◌, not, if◌then◌else◌, ◌==◌,
  ==_refl, eq_of_==, string_eq, nat_eq, arith, Bool-cases, Option-cases, AllTrue, inl, inr,
}
use tyo_mq.Prelude.Dict
use tyo_mq.Prelude.Dict.{
  AllEntries, Dict, NodupKeys, erase-AllEntries, insert-AllEntries, lookup-AllEntries,
  retain-AllTrue,
}
use tyo_mq.Reliable.{
  Subscription, DurableEntry, Pending, Server, init, Reply, ack_ok, ack_fail, Effect, consume,
  consume_plain, dead_letter, store_ack, pending_of, retry_of, ack_found, ack,
}
use tyo_mq.Reliable.Calls.{
  Call, send_call, replay_call, timeout_call, retry_call, ack_call, disconnect_call, connect_call,
  subscribe_call, run,
}
use tyo_mq.Reliable.Rules.{Tests, IsKept, AllowsCalls}
use tyo_mq.Reliable.Invariant.{run-Result}
use tyo_mq.Reliable.Keys.{keyed, run-keyed, run-init-NodupKeys}
use tyo_mq.Prelude.{◌&&◌, ◌≢◌, ◌⊎◌}

module _ {P : Type 0} where
  -- What an acknowledgement does, and answers.
  abbrev pub Acknowledges :
      Server P → String → String → Bool → Server P × List (Effect P) × Reply → Type 0
  Acknowledges s socket id stored (s', out, reply) =
      (p : Pending P) × (Dict.lookup id s.pending ≡ some p)
      × (p.socket ≡ socket)
      × (s' ≡ record s { pending = Dict.erase id s.pending })
      × (out ≡ store_ack id ∷ [])
      × (reply ≡ (if stored then ack_ok id else ack_fail 500))

  abbrev pub IsRefused : Server P → String → String → Server P × List (Effect P) × Reply → Type 0
  IsRefused s socket id (s', out, reply) =
      (s' ≡ s)
      × (out ≡ [])
      × (((id ≡ "") × (reply ≡ ack_fail 400))
          ⊎ ((Dict.lookup id s.pending ≡ none) × (reply ≡ ack_fail 404))
          ⊎ ((p : Pending P) × (Dict.lookup id s.pending ≡ some p)
              × (p.socket ≢ socket)
              × (reply ≡ ack_fail 403)))

  -- An acknowledgement is accepted from the socket that the message was sent to: then its timer ends and the store is told,
  -- and the answer says whether the store could. It is refused, and changes nothing, if it has no id, if no delivery
  -- of the id is pending, or if the pending one went to another socket.
  pub ack_lem :
      (s : Server P) (socket id : String) (stored : Bool)
      → Acknowledges s socket id stored (ack s socket (some id) stored)
        ⊎ IsRefused s socket id (ack s socket (some id) stored)
  unfolding ack ack_found
  ack_lem s socket id stored = elim (Bool-cases (id == "")) [
    | inl e ↦ rw e (inr (refl, refl, inl (eq_of_== id "" e, refl)))
    | inr e ↦ elim (Option-cases (Dict.lookup id s.pending)) [
      | inl f ↦ rw (e, f) (inr (refl, refl, inr (inl (refl, refl))))
      | inr (p, f) ↦ elim (Bool-cases (p.socket == socket)) [
        | inr g ↦
            rw (e, f, g)
              (inr
                (refl, refl, inr (inr (p, refl, (λ same. absurd (ground (arith, g, same))), refl))))
        | inl g ↦ rw (e, f, g) (inl (p, refl, eq_of_== p.socket socket g, refl, refl, refl))
      ]
    ]
  ]

any_settings : (d : Dict ℕ Subscription) → AllEntries (λ (ref : ℕ) (sub : Subscription). true) d
any_settings [] = tt
any_settings (x ∷ d) = (refl, any_settings d)

module _ {P : Type 0} (id : String) where
  abbrev pub mentions : Effect P → Bool
  mentions (consume socket entry attempt) = entry.id == id
  mentions (consume_plain socket entry) = entry.id == id
  mentions (dead_letter realm of_id attempt) = of_id == id
  mentions (store_ack of_id) = of_id == id

  abbrev pub silent : Effect P → Bool
  silent e = not (mentions e)

  abbrev quiet : Tests P
  quiet = record {
    sub_ok = λ sub. true;
    attempt_ok = λ entry attempt. not (entry.id == id);
    pending_ok = λ key p. not (key == id) && not (p.entry.id == id);
    retry_ok = λ r. not (r.entry.id == id);
    effect_ok = silent;
  }

  quiet-IsKept : IsKept quiet
  unfolding pending_of retry_of
  quiet-IsKept = record {
    sent = λ entry ref consumer attempt sub socket h h'. ground (arith, h');
    replayed = λ entry socket h. (h, h);
    given_up = λ key p h h'. ground (arith, h);
    delayed = λ key p h h'. ground (arith, h);
    resent = λ r h. h;
    acked = λ key p h. ground (arith, h);
  }

  abbrev pub SkipsAll : List (DurableEntry P) → Type 0
  SkipsAll entries = AllTrue (λ entry. not (entry.id == id)) entries

  -- The calls send and replay other messages only.
  abbrev pub SendsOthers : List (Call P) → Type 0
  SendsOthers [] = Unit
  SendsOthers (send_call none entry ref consumer ∷ cs) = SendsOthers cs
  SendsOthers (send_call (some new) entry ref consumer ∷ cs) =
      (not (new == id) ≡ true) × SendsOthers cs
  SendsOthers (replay_call entries ref consumer ∷ cs) = SkipsAll entries × SendsOthers cs
  SendsOthers (timeout_call key ∷ cs) = SendsOthers cs
  SendsOthers (retry_call n ∷ cs) = SendsOthers cs
  SendsOthers (ack_call socket key stored ∷ cs) = SendsOthers cs
  SendsOthers (disconnect_call socket ∷ cs) = SendsOthers cs
  SendsOthers (connect_call consumer socket ∷ cs) = SendsOthers cs
  SendsOthers (subscribe_call ref sub ∷ cs) = SendsOthers cs

  allows_calls : (cs : List (Call P)) → SendsOthers cs → AllowsCalls quiet cs
  allows_calls [] h = tt
  allows_calls (send_call none entry ref consumer ∷ cs) h = (tt, allows_calls cs h)
  allows_calls (send_call (some new) entry ref consumer ∷ cs) (e, h) = (e, allows_calls cs h)
  allows_calls (replay_call entries ref consumer ∷ cs) (e, h) = (e, allows_calls cs h)
  allows_calls (timeout_call key ∷ cs) h = (tt, allows_calls cs h)
  allows_calls (retry_call n ∷ cs) h = (tt, allows_calls cs h)
  allows_calls (ack_call socket key stored ∷ cs) h = (tt, allows_calls cs h)
  allows_calls (disconnect_call socket ∷ cs) h = (tt, allows_calls cs h)
  allows_calls (connect_call consumer socket ∷ cs) h = (tt, allows_calls cs h)
  allows_calls (subscribe_call ref sub ∷ cs) h = (refl, allows_calls cs h)

  absent-quiet :
      (d : Dict String (Pending P))
      → Dict.lookup id d ≡ none
      → AllEntries keyed.pending_ok d
      → AllEntries quiet.pending_ok d
  unfolding Dict.lookup
  absent-quiet [] h k = tt
  absent-quiet ((key, p) ∷ d) h (e, k) = elim (Bool-cases (id == key)) [
    | inl same ↦ absurd (ground (arith, same, h))
    | inr other ↦ (ground (arith, other, e), absent-quiet d (ground (arith, other, h)) k)
  ]

  erase-quiet :
      (d : Dict String (Pending P))
      → NodupKeys d
      → AllEntries keyed.pending_ok d
      → AllEntries quiet.pending_ok (Dict.erase id d)
  erase-quiet d n k =
      absent-quiet (Dict.erase id d) (Dict.lookup-erase id id d n ∙ rw (==_refl id) refl)
        (erase-AllEntries keyed.pending_ok id d k)

  pub ack-accepted :
      (s : Server P) (socket : String) (stored : Bool)
      → (ack s socket (some id) stored).2 ≡ ack_ok id
      → (ack s socket (some id) stored).0 ≡ record s { pending = Dict.erase id s.pending }
  ack-accepted s socket stored h = elim (ack_lem s socket id stored) [
    | inl (p, e, own, next, out, reply) ↦ next
    | inr (same, out, inl (e, reply)) ↦ absurd (cc (reply, h))
    | inr (same, out, inr (inl (e, reply))) ↦ absurd (cc (reply, h))
    | inr (same, out, inr (inr (p, e, other, reply))) ↦ absurd (cc (reply, h))
  ]

  -- Once a delivery is acknowledged, with no retry of the message waiting, nothing more is ever sent or told to the store
  -- about it, whatever happens to other messages, sockets, timers and subscriptions.
  pub ack_final :
      (before after : List (Call P)) (socket : String) (stored : Bool)
      → let s = (run init before).0 in
        AllTrue (λ r. not (r.entry.id == id)) s.retries
        → (ack s socket (some id) stored).2 ≡ ack_ok id
        → SendsOthers after
        → AllTrue silent (run (ack s socket (some id) stored).0 after).1
  ack_final before after socket stored waiting accepted h =
      let s = (run init before).0 in
      rw (ack-accepted s socket stored accepted) (
        (run-Result quiet quiet-IsKept (record s { pending = Dict.erase id s.pending }) after
          (allows_calls after h)
          (record {
            subs = any_settings s.subscriptions;
            waiting = erase-quiet s.pending (run-init-NodupKeys before) (run-keyed before).waiting;
            delays = waiting;
          })).1)
