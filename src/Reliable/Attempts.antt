-- ===== src/Reliable/Attempts.antt =====
-- How often a message is sent that nobody acknowledges.
use tyo_mq.Prelude.{
  ℕ, zero, suc, ◌+◌, ◌-◌, ◌<◌, String, true, false, none, some, List, [], ◌∷◌, ◌++◌, ◌≡◌, refl, ap,
  ◌∙◌, length, leb, ==_refl, string_eq, nat_eq, arith,
}
use tyo_mq.Prelude.Dict
use tyo_mq.Prelude.Dict.{Dict, NodupKeys}
use tyo_mq.Reliable.{
  Subscription, DurableEntry, Pending, Retry, Server, Effect, consume, dead_letter,
  normalize_retry_policy, socket_of, pending_of, deliver_to, deliver, enqueue_and_deliver, retry_of,
  expire, ack_timeout, pick, retry_picked, retry,
}
use tyo_mq.Reliable.Calls.{Call, send_call, timeout_call, retry_call, step, run}

module _ {P : Type 0} where
  pub deliver_live :
      (s : Server P) (entry : DurableEntry P) (ref consumer attempt : ℕ) (sub : Subscription)
      (socket : String)
      → Dict.lookup ref s.subscriptions ≡ some sub
      → socket_of (Dict.lookup consumer s.consumers) ≡ some socket
      → deliver s entry ref consumer attempt ≡ (
        record s {
          pending =
              Dict.insert entry.id (pending_of entry ref sub consumer socket attempt) s.pending;
        },
        consume socket entry attempt ∷ [],
      )
  unfolding deliver deliver_to
  deliver_live s entry ref consumer attempt sub socket e f = rw (e, f) refl

  pick-append :
      (rs : List (Retry P)) (r : Retry P) → pick (length rs) (rs ++ (r ∷ [])) ≡ some (r, rs)
  unfolding pick
  pick-append [] r = refl
  pick-append (q ∷ rs) r = rw (pick-append rs r) refl

  ack_timeout_more :
      (s : Server P) (id : String) (p : Pending P)
      → Dict.lookup id s.pending ≡ some p
      → leb p.policy.max_attempts p.attempt ≡ false
      → ack_timeout s id ≡ (
        record s { pending = Dict.erase id s.pending; retries = s.retries ++ (retry_of p ∷ []) },
        [],
      )
  unfolding ack_timeout expire
  ack_timeout_more s id p e more = rw (e, more) refl

  ack_timeout_last :
      (s : Server P) (id : String) (p : Pending P)
      → Dict.lookup id s.pending ≡ some p
      → leb p.policy.max_attempts p.attempt ≡ true
      → ack_timeout s id ≡ (
        record s { pending = Dict.erase id s.pending },
        dead_letter p.entry.realm p.entry.id p.attempt ∷ [],
      )
  unfolding ack_timeout expire
  ack_timeout_last s id p e more = rw (e, more) refl

  pub retry_newest :
      (s : Server P) (rs : List (Retry P)) (r : Retry P)
      → s.retries ≡ rs ++ (r ∷ [])
      → retry s (length rs)
        ≡ deliver (record s { retries = rs }) r.entry r.subscription r.consumer (r.attempt + 1)
  unfolding retry retry_picked
  retry_newest s rs r e = rw (e, pick-append rs r) refl

module _ {P : Type 0} (entry : DurableEntry P) (ref consumer : ℕ) (sub : Subscription)
    (socket : String) where
  -- The state in which the message waits for an acknowledgement of this attempt.
  abbrev waiting : Server P → ℕ → Server P
  waiting s attempt = record s {
    pending = Dict.insert entry.id (pending_of entry ref sub consumer socket attempt) s.pending;
  }

  -- Its consumer is connected, its subscription known.
  abbrev pub IsReachable : Server P → Type 0
  IsReachable s =
      (Dict.lookup ref s.subscriptions ≡ some sub)
      × (socket_of (Dict.lookup consumer s.consumers) ≡ some socket)

  -- `n` times the timer of the message fires and the delay of the retry passes, and once more the timer fires.
  abbrev pub unanswered : ℕ → ℕ → List (Call P)
  unanswered zero r = timeout_call entry.id ∷ []
  unanswered (suc n) r = timeout_call entry.id ∷ retry_call r ∷ unanswered n r

  -- The attempts after the given one, and the dead letter.
  abbrev pub resends : ℕ → ℕ → List (Effect P)
  resends zero attempt = dead_letter entry.realm entry.id attempt ∷ []
  resends (suc n) attempt = consume socket entry (attempt + 1) ∷ resends n (attempt + 1)

  retry_round :
      (s : Server P) (attempt : ℕ) (cs : List (Call P))
      → IsReachable s
      → Dict.lookup entry.id s.pending ≡ some (pending_of entry ref sub consumer socket attempt)
      → attempt < (normalize_retry_policy sub).max_attempts
      → let s' = waiting (record s { pending = Dict.erase entry.id s.pending }) (attempt + 1) in
        run s (timeout_call entry.id ∷ retry_call (length s.retries) ∷ cs)
        ≡ ((run s' cs).0, consume socket entry (attempt + 1) ∷ (run s' cs).1)
  unfolding run step pending_of retry_of
  retry_round s attempt cs (known, live) e more =
      let p = pending_of entry ref sub consumer socket attempt in
      let s₁ = record s {
        pending = Dict.erase entry.id s.pending;
        retries = s.retries ++ (retry_of p ∷ []);
      } in
      rw
        (
          ack_timeout_more s entry.id p e (ground (arith, more)),
          retry_newest s₁ s.retries (retry_of p) refl,
          deliver_live (record s { pending = Dict.erase entry.id s.pending }) entry ref consumer
              (attempt + 1) sub socket known live,
        )
        refl

  -- The sends that are left, no trace of the message but these, and the retries as they were.
  abbrev GivesUp : List (Retry P) → List (Effect P) → Server P × List (Effect P) → Type 0
  GivesUp retries sent (s, out) =
      (out ≡ sent) × (Dict.lookup entry.id s.pending ≡ none) × (s.retries ≡ retries)

  last_timeout :
      (s : Server P) (attempt : ℕ)
      → NodupKeys s.pending
      → Dict.lookup entry.id s.pending ≡ some (pending_of entry ref sub consumer socket attempt)
      → attempt ≡ (normalize_retry_policy sub).max_attempts
      → GivesUp s.retries (resends 0 attempt) (run s (timeout_call entry.id ∷ []))
  unfolding run step pending_of
  last_timeout s attempt nodup e full =
      let p = pending_of entry ref sub consumer socket attempt in
      rw (ack_timeout_last s entry.id p e (ground (arith, full))) (
        refl,
        Dict.lookup-erase entry.id entry.id s.pending nodup ∙ rw (==_refl entry.id) refl,
        refl,
      )

  unanswered_lem :
      (n : ℕ) (s : Server P) (attempt : ℕ)
      → IsReachable s
      → NodupKeys s.pending
      → Dict.lookup entry.id s.pending ≡ some (pending_of entry ref sub consumer socket attempt)
      → attempt + n ≡ (normalize_retry_policy sub).max_attempts
      → GivesUp s.retries (resends n attempt) (run s (unanswered n (length s.retries)))
  unanswered_lem zero s attempt live nodup e full =
      last_timeout s attempt nodup e (omega (arith, full))
  unanswered_lem (suc n) s attempt live nodup e full =
      let erased = Dict.erase entry.id s.pending in
      let s' = waiting (record s { pending = erased }) (attempt + 1) in
      let p' = pending_of entry ref sub consumer socket (attempt + 1) in
      let (outs, gone, same) =
        unanswered_lem n s' (attempt + 1) live
          (Dict.insert-NodupKeys entry.id p' erased (Dict.erase-NodupKeys entry.id s.pending nodup))
          (Dict.lookup-insert entry.id entry.id p' erased ∙ rw (==_refl entry.id) refl)
          (omega (arith, full)) in
      rw (retry_round s attempt (unanswered n (length s.retries)) live e (omega (arith, full)))
        (ap (◌∷◌ (consume socket entry (attempt + 1))) outs, gone, same)

  policy-positive :
      1 + ((normalize_retry_policy sub).max_attempts - 1)
      ≡ (normalize_retry_policy sub).max_attempts
  unfolding normalize_retry_policy
  policy-positive = omega arith

  sent_first :
      (s : Server P) (cs : List (Call P))
      → IsReachable s
      → run s (send_call (some entry.id) entry ref consumer ∷ cs)
        ≡ ((run (waiting s 1) cs).0, consume socket entry 1 ∷ (run (waiting s 1) cs).1)
  unfolding run step enqueue_and_deliver
  sent_first s cs (known, live) =
      rw (deliver_live s entry ref consumer 1 sub socket known live) refl

  -- How often it is sent again.
  abbrev pub rounds : ℕ
  rounds = (normalize_retry_policy sub).max_attempts - 1

  abbrev pub unanswered_run : Server P → Server P × List (Effect P)
  unanswered_run s =
      run s (send_call (some entry.id) entry ref consumer ∷ unanswered rounds (length s.retries))

  -- A message that is sent to a connected consumer which never answers, while nothing else happens, is
  -- sent as often as its policy says, with the attempts numbered from 1, then given up as one dead
  -- letter; no timer for it is left.
  pub send-unanswered :
      (s : Server P)
      → IsReachable s
      → NodupKeys s.pending
      → ((unanswered_run s).1 ≡ consume socket entry 1 ∷ resends rounds 1)
        × (Dict.lookup entry.id (unanswered_run s).0.pending ≡ none)
        × ((unanswered_run s).0.retries ≡ s.retries)
  send-unanswered s live nodup =
      let p = pending_of entry ref sub consumer socket 1 in
      let (outs, gone, same) =
        unanswered_lem rounds (waiting s 1) 1 live
          (Dict.insert-NodupKeys entry.id p s.pending nodup)
          (Dict.lookup-insert entry.id entry.id p s.pending ∙ rw (==_refl entry.id) refl)
          policy-positive in
      rw (sent_first s (unanswered rounds (length s.retries)) live)
        (ap (◌∷◌ (consume socket entry 1)) outs, gone, same)
