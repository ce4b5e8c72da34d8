-- ===== src/Reliable/Rules.antt =====
-- Tests on the pending deliveries, the waiting retries and the effects that every step keeps: what it takes
-- to show what all sends of a run have in common.
use tyo_mq.Prelude.{
  ℕ, ◌+◌, String, Bool, true, false, none, some, List, [], ◌∷◌, ◌≡◌, leb, string_eq, nat_eq,
  AllTrue,
}
use tyo_mq.Prelude.Dict.{AllEntries}
use tyo_mq.Reliable.{
  Subscription, DurableEntry, Pending, Retry, Server, Effect, consume, consume_plain, dead_letter,
  store_ack, pending_of, retry_of,
}
use tyo_mq.Reliable.Calls.{
  Call, send_call, replay_call, timeout_call, retry_call, ack_call, disconnect_call, connect_call,
  subscribe_call,
}

-- The tests: on the settings of a subscription, on an attempt at a message, and on what comes of it.
pub record Tests (P : Type 0) : Type 0 where
  pub sub_ok : Subscription → Bool
  pub attempt_ok : DurableEntry P → ℕ → Bool
  pub pending_ok : String → Pending P → Bool
  pub retry_ok : Retry P → Bool
  pub effect_ok : Effect P → Bool

-- That the tests fit the steps.
pub record IsKept {P : Type 0} (t : Tests P) : Type 0 where
  pub sent :
      (entry : DurableEntry P) (ref consumer attempt : ℕ) (sub : Subscription) (socket : String)
      → t.sub_ok sub ≡ true
      → t.attempt_ok entry attempt ≡ true
      → (t.pending_ok entry.id (pending_of entry ref sub consumer socket attempt) ≡ true)
        × (t.effect_ok (consume socket entry attempt) ≡ true)
  pub replayed :
      (entry : DurableEntry P) (socket : String)
      → t.attempt_ok entry 1 ≡ true
      → (t.effect_ok (consume_plain socket entry) ≡ true)
        × (t.effect_ok (store_ack entry.id) ≡ true)
  pub given_up :
      (id : String) (p : Pending P)
      → t.pending_ok id p ≡ true
      → leb p.policy.max_attempts p.attempt ≡ true
      → t.effect_ok (dead_letter p.entry.realm p.entry.id p.attempt) ≡ true
  pub delayed :
      (id : String) (p : Pending P)
      → t.pending_ok id p ≡ true
      → leb p.policy.max_attempts p.attempt ≡ false
      → t.retry_ok (retry_of p) ≡ true
  pub resent : (r : Retry P) → t.retry_ok r ≡ true → t.attempt_ok r.entry (r.attempt + 1) ≡ true
  pub acked :
      (id : String) (p : Pending P) → t.pending_ok id p ≡ true → t.effect_ok (store_ack id) ≡ true

module _ {P : Type 0} (t : Tests P) where
  pub record AllOk (s : Server P) : Type 0 where
    pub subs : AllEntries (λ (ref : ℕ) (sub : Subscription). t.sub_ok sub) s.subscriptions
    pub waiting : AllEntries t.pending_ok s.pending
    pub delays : AllTrue t.retry_ok s.retries

  -- The state is as it should be, and so is what was sent.
  abbrev pub Result : Server P × List (Effect P) → Type 0
  Result (s, out) = AllOk s × AllTrue t.effect_ok out

  abbrev pub AllowsAll : List (DurableEntry P) → Type 0
  AllowsAll entries = AllTrue (λ entry. t.attempt_ok entry 1) entries

  -- What a call brings in passes the tests.
  abbrev pub Allows : Call P → Type 0
  Allows (send_call none entry ref consumer) = Unit
  Allows (send_call (some id) entry ref consumer) = t.attempt_ok (record entry { id = id }) 1 ≡ true
  Allows (replay_call entries ref consumer) = AllowsAll entries
  Allows (timeout_call id) = Unit
  Allows (retry_call n) = Unit
  Allows (ack_call socket id stored) = Unit
  Allows (disconnect_call socket) = Unit
  Allows (connect_call consumer socket) = Unit
  Allows (subscribe_call ref sub) = t.sub_ok sub ≡ true

  abbrev pub AllowsCalls : List (Call P) → Type 0
  AllowsCalls [] = Unit
  AllowsCalls (c ∷ cs) = Allows c × AllowsCalls cs
