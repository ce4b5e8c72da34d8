-- ===== src/Reliable/Late.antt =====
-- A retry that waits is not called off by an acknowledgement.
use tyo_mq.Prelude.{
  ◌+◌, String, Bool, true, some, List, [], ◌∷◌, ◌++◌, ◌≡◌, refl, length, ==_refl, string_eq, nat_eq,
}
use tyo_mq.Prelude.Dict
use tyo_mq.Reliable.{Subscription, Server, Retry, consume, ack_ok, socket_of, ack}
use tyo_mq.Reliable.Calls.{retry_call, step, run}
use tyo_mq.Reliable.Attempts.{deliver_live, retry_newest}
use tyo_mq.Reliable.Acked.{mentions, ack-accepted}

module _ {P : Type 0} where
  retry_only :
      (s : Server P) (rs : List (Retry P)) (r : Retry P) (sub : Subscription) (live : String)
      → s.retries ≡ rs ++ (r ∷ [])
      → Dict.lookup r.subscription s.subscriptions ≡ some sub
      → socket_of (Dict.lookup r.consumer s.consumers) ≡ some live
      → (run s (retry_call (length rs) ∷ [])).1 ≡ consume live r.entry (r.attempt + 1) ∷ []
  unfolding run step
  retry_only s rs r sub live e known connected =
      rw
        (
          retry_newest s rs r e,
          deliver_live (record s { retries = rs }) r.entry r.subscription r.consumer (r.attempt + 1)
              sub live known connected,
        )
        refl

  -- An acknowledged message is sent again, although the acknowledgement was accepted, if a retry of it is waiting: a
  -- replay after the timeout has sent it anew, and its acknowledgement clears the new timer only.
  pub retry-ack :
      (s : Server P) (rs : List (Retry P)) (r : Retry P) (sub : Subscription) (socket live : String)
      (stored : Bool)
      → (ack s socket (some r.entry.id) stored).2 ≡ ack_ok r.entry.id
      → s.retries ≡ rs ++ (r ∷ [])
      → Dict.lookup r.subscription s.subscriptions ≡ some sub
      → socket_of (Dict.lookup r.consumer s.consumers) ≡ some live
      → ((run (ack s socket (some r.entry.id) stored).0 (retry_call (length rs) ∷ [])).1
          ≡ consume live r.entry (r.attempt + 1) ∷ [])
        × (mentions r.entry.id (consume live r.entry (r.attempt + 1)) ≡ true)
  retry-ack s rs r sub socket live stored accepted e known connected = (
    rw (ack-accepted r.entry.id s socket stored accepted) (
        retry_only (record s { pending = Dict.erase r.entry.id s.pending }) rs r sub live e known
          connected),
    ==_refl r.entry.id,
  )
