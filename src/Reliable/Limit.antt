-- ===== src/Reliable/Limit.antt =====
-- No message is sent more often than the policies allow.
use tyo_mq.Prelude.{
  ◌&&◌, ℕ, ◌+◌, ◌≤◌, Bool, true, none, some, List, [], ◌∷◌, refl, leb, string_eq, nat_eq, arith,
  AllTrue,
}
use tyo_mq.Reliable.{
  DurableEntry, init, Effect, consume, consume_plain, dead_letter, store_ack,
  normalize_retry_policy, pending_of, retry_of,
}
use tyo_mq.Reliable.Calls.{
  Call, send_call, replay_call, timeout_call, retry_call, ack_call, disconnect_call, connect_call,
  subscribe_call, run,
}
use tyo_mq.Reliable.Rules.{Tests, IsKept, AllOk, AllowsAll, AllowsCalls}
use tyo_mq.Reliable.Invariant.{run-Result}
use tyo_mq.Prelude.{◌&&◌}

module _ {P : Type 0} (most : ℕ) where
  abbrev pub within : Effect P → Bool
  within (consume socket entry attempt) = leb attempt most
  within (consume_plain socket entry) = true
  within (dead_letter realm id attempt) = leb attempt most
  within (store_ack id) = true

  abbrev limit : Tests P
  limit = record {
    sub_ok = λ sub. leb (normalize_retry_policy sub).max_attempts most;
    attempt_ok = λ entry attempt. leb attempt most;
    pending_ok = λ id p. leb p.attempt most && leb p.policy.max_attempts most;
    retry_ok = λ r. leb (r.attempt + 1) most;
    effect_ok = within;
  }

  limit-IsKept : IsKept limit
  unfolding pending_of retry_of
  limit-IsKept = record {
    sent = λ entry ref consumer attempt sub socket h h'. ground (arith, h, h');
    replayed = λ entry socket h. (refl, refl);
    given_up = λ id p h h'. ground (arith, h, h');
    delayed = λ id p h h'. ground (arith, h, h');
    resent = λ r h. h;
    acked = λ id p h. refl;
  }

  -- Every policy that a subscription brings in allows at most so many attempts.
  abbrev pub Limits : List (Call P) → Type 0
  Limits [] = Unit
  Limits (subscribe_call ref sub ∷ cs) =
      ((normalize_retry_policy sub).max_attempts ≤ most) × Limits cs
  Limits (send_call id entry ref consumer ∷ cs) = Limits cs
  Limits (replay_call entries ref consumer ∷ cs) = Limits cs
  Limits (timeout_call id ∷ cs) = Limits cs
  Limits (retry_call n ∷ cs) = Limits cs
  Limits (ack_call socket id stored ∷ cs) = Limits cs
  Limits (disconnect_call socket ∷ cs) = Limits cs
  Limits (connect_call consumer socket ∷ cs) = Limits cs

  allows_all : (entries : List (DurableEntry P)) → 1 ≤ most → AllowsAll limit entries
  allows_all [] h = tt
  allows_all (entry ∷ entries) h = (ground (arith, h), allows_all entries h)

  allows_calls : (cs : List (Call P)) → 1 ≤ most → Limits cs → AllowsCalls limit cs
  allows_calls [] h l = tt
  allows_calls (send_call none entry ref consumer ∷ cs) h l = (tt, allows_calls cs h l)
  allows_calls (send_call (some id) entry ref consumer ∷ cs) h l =
      (ground (arith, h), allows_calls cs h l)
  allows_calls (replay_call entries ref consumer ∷ cs) h l =
      (allows_all entries h, allows_calls cs h l)
  allows_calls (timeout_call id ∷ cs) h l = (tt, allows_calls cs h l)
  allows_calls (retry_call n ∷ cs) h l = (tt, allows_calls cs h l)
  allows_calls (ack_call socket id stored ∷ cs) h l = (tt, allows_calls cs h l)
  allows_calls (disconnect_call socket ∷ cs) h l = (tt, allows_calls cs h l)
  allows_calls (connect_call consumer socket ∷ cs) h l = (tt, allows_calls cs h l)
  allows_calls (subscribe_call ref sub ∷ cs) h (e, l) = (ground (arith, e), allows_calls cs h l)

  init-AllOk : AllOk limit init
  unfolding init
  init-AllOk = record { subs = tt; waiting = tt; delays = tt }

  -- If no policy allows more than so many attempts, then no run of sends, replays, timeouts, retries, acknowledgements,
  -- disconnects and changed subscriptions, in whatever order, sends a message or gives it up with a higher attempt number.
  pub run-within : (cs : List (Call P)) → 1 ≤ most → Limits cs → AllTrue within (run init cs).1
  run-within cs h l = (run-Result limit limit-IsKept init cs (allows_calls cs h l) init-AllOk).1
