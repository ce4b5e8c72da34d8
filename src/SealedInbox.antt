-- ===== src/SealedInbox.antt =====
-- SEALED_SUBSCRIBE of lib/server.js: a client drains the inbox of an identity, with or without
-- acknowledgements. The inbox of the identity is its queue in the store, in order, and the store
-- answers every call without an error.
pub mod Drain
use tyo_mq.Prelude.{
  ℕ, zero, suc, ◌+◌, Bool, true, false, Option, none, some, List, [], ◌∷◌, ◌++◌, ◌&&◌, ◌||◌, not,
  ltb, if◌then◌else◌, ◌==◌, codes_eq, nat_eq, contains, length, take, map, filter,
}

abbrev pub Text : Type 0
Text = List ℕ

pub record Entry : Type 0 where
  pub id : Text
  pub message : Text

-- What the handler knows of the socket.
pub record Socket : Type 0 where
  pub identities : List Text
  pub sealed_ack_capable : Bool
  pub sealed_draining : List Text

-- A request, after its JSON was read. A missing identity is the empty one.
pub record Request : Type 0 where
  pub identity : Text
  pub ack : Bool

-- `{ok: false, code}`, or what was done.
pub data Reply : Type 0 where
  failed : ℕ → Reply
  drained : (replayed dead pending : ℕ) (more : Bool) → Reply
  started : Reply

-- What becomes of one message: no answer in time or no connection, an answer that it was processed,
-- or any other answer.
pub data Outcome : Type 0 where
  lost confirmed refused : Outcome

-- The refusals before the inbox is read: of the broker, of the socket and of the realm.
unfoldable pub refusal : Bool → Bool → Socket → Option Request → Option ℕ
refusal configured enabled_for_realm socket none = some 400
refusal configured enabled_for_realm socket (some req) =
    if not configured
    then some 501
    else if req.identity == []
    then some 400
    else if not (contains socket.identities req.identity)
    then some 403
    else if not enabled_for_realm
    then some 403
    else none

-- A request that asks for acknowledgements marks the socket, and one drain of an identity runs at a
-- time.
unfoldable pub begin : Socket → Text → Socket × Reply
begin socket identity =
    let capable = record socket { sealed_ack_capable = true } in
    if contains socket.sealed_draining identity
    then (capable, failed 409)
    else (record capable { sealed_draining = identity ∷ socket.sealed_draining }, started)

unfoldable pub remove : Text → List Entry → List Entry
remove id q = filter (λ e. not (e.id == id)) q

pub record Drained : Type 0 where
  pub queue : List Entry
  pub dead_letters : List Entry
  pub replayed : ℕ
  pub dead : ℕ
  pub pending : ℕ

-- One message of the drain.
unfoldable pub settle : Outcome → Entry → Drained → Drained
settle lost e d = record d { pending = suc d.pending }
settle confirmed e d = record d { queue = remove e.id d.queue; replayed = suc d.replayed }
settle refused e d = record d {
  queue = remove e.id d.queue;
  dead_letters = d.dead_letters ++ (e ∷ []);
  dead = suc d.dead;
}

-- The chain over the batch, one message after the other.
unfoldable pub settle_all : (Entry → Outcome) → List Entry → Drained → Drained
settle_all outcome [] d = d
settle_all outcome (e ∷ es) d = settle_all outcome es (settle (outcome e) e d)

-- The drain with acknowledgements, from the batch on.
unfoldable pub drain_acked : ℕ → (Entry → Outcome) → List Entry → Drained × Reply
drain_acked batch outcome entries =
    let chosen = take batch entries in
    let d =
      settle_all outcome chosen
        (record { queue = entries; dead_letters = []; replayed = 0; dead = 0; pending = 0 }) in
    (
      d,
      drained d.replayed d.dead d.pending (ltb (length chosen) (length entries) || ltb 0 d.pending),
    )

unfoldable pub finish : Socket → Text → Socket
finish socket identity = record socket {
  sealed_draining = filter (λ i. not (i == identity)) socket.sealed_draining;
}

unfoldable pub remove_all : List Entry → List Entry → List Entry
remove_all [] q = q
remove_all (e ∷ es) q = remove_all es (remove e.id q)

-- The drain without acknowledgements: what is left, what is sent, and the reply.
unfoldable pub drain : ℕ → List Entry → List Entry × List Text × Reply
drain batch entries =
    let chosen = take batch entries in
    (
      remove_all chosen entries,
      map (λ e. e.message) chosen,
      drained (length chosen) 0 0 (ltb (length chosen) (length entries)),
    )
