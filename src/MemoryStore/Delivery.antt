-- ===== src/MemoryStore/Delivery.antt =====
-- At-least-once delivery: a queued message stays in its queue until it is acknowledged, moved to the
-- dead letters, purged with its realm, or expired.
use tyo_mq.Prelude.{
  ℕ, zero, suc, ◌≤◌, String, true, Option, none, some, List, [], ◌∷◌, ◌≡◌, ◌≢◌, refl, filter, In,
  In-filter, In-append_left, In-append_right, not, ◌==◌, ==_refl, string_eq, arith, inl,
}
use tyo_mq.MemoryStore.{
  MemoryStore, Message, Entry, is_alive, alive, purge_expired, entry_of, enqueue, addressed,
  dequeue, has_id, ack, dead_letter, discard_dlq, count_queued, purge_realm, or_text, expires_at,
}
use tyo_mq.MemoryStore.Queue.{dead_letter_lem}

pub data Call (P : Type 0) : Type 0 where
  enqueue_call : String → String → Message P → String → ℕ → ℕ → ℕ → Call P
  dequeue_call : String → String → String → ℕ → Call P
  ack_call : String → Call P
  dead_letter_call : String → String → ℕ → Call P
  discard_call : String → Call P
  count_call : String → Option String → Option String → ℕ → Call P
  purge_call : String → Call P

alive_earlier :
    (now end : ℕ) (e : Option ℕ) → now ≤ end → is_alive end e ≡ true → is_alive now e ≡ true
unfolding is_alive
alive_earlier now end none le h = h
alive_earlier now end (some zero) le h = h
alive_earlier now end (some (suc n)) le h = ground arith

or_text_idem :
    (text fallback : String) → or_text (or_text text fallback) fallback ≡ or_text text fallback
or_text_idem text fallback = ground arith

module _ {P : Type 0} where
  step : MemoryStore P → Call P → MemoryStore P
  step s (enqueue_call realm event message fresh t u v) =
      (enqueue s realm event message fresh t u v).0
  step s (dequeue_call realm event consumer now) = (dequeue s realm event consumer now).0
  step s (ack_call id) = ack s id
  step s (dead_letter_call id reason now) = (dead_letter s id reason now).0
  step s (discard_call id) = discard_dlq s id
  step s (count_call realm event consumer now) = (count_queued s realm event consumer now).0
  step s (purge_call realm) = (purge_realm s realm).0

  unfoldable pub run : MemoryStore P → List (Call P) → MemoryStore P
  unfolding step
  run s [] = s
  run s (call ∷ calls) = run (step s call) calls

  -- The calls neither acknowledge the entry, nor move it to the dead letters, nor purge its realm, and
  -- none that purges expired messages comes after the given time.
  abbrev pub Spares : Entry P → ℕ → List (Call P) → Type 0
  Spares entry end [] = Unit
  Spares entry end (enqueue_call realm event message fresh t u v ∷ calls) =
      (t ≤ end) × Spares entry end calls
  Spares entry end (dequeue_call realm event consumer now ∷ calls) =
      (now ≤ end) × Spares entry end calls
  Spares entry end (ack_call id ∷ calls) = (entry.id ≢ id) × Spares entry end calls
  Spares entry end (dead_letter_call id reason now ∷ calls) =
      (entry.id ≢ id) × Spares entry end calls
  Spares entry end (discard_call id ∷ calls) = Spares entry end calls
  Spares entry end (count_call realm event consumer now ∷ calls) =
      (now ≤ end) × Spares entry end calls
  Spares entry end (purge_call realm ∷ calls) = (entry.realm ≢ realm) × Spares entry end calls

  In-purge :
      (s : MemoryStore P) (entry : Entry P) (now end : ℕ)
      → now ≤ end
      → alive end entry ≡ true
      → In entry s.messages
      → In entry (purge_expired s now).messages
  unfolding purge_expired
  In-purge s entry now end le h i =
      In-filter (alive now) entry s.messages (alive_earlier now end entry.expires_at le h) i

  addressed_self : (entry : Entry P) → addressed entry.realm entry.event entry.consumer entry ≡ true
  addressed_self entry = rw (==_refl entry.realm, ==_refl entry.event, ==_refl entry.consumer)

  other_id : (entry : Entry P) (id : String) → entry.id ≢ id → not (has_id id entry) ≡ true
  other_id entry id h = ground (arith, h)

  other_realm :
      (entry : Entry P) (realm : String) → entry.realm ≢ realm → not (entry.realm == realm) ≡ true
  other_realm entry realm h = ground (arith, h)

  In-run :
      (calls : List (Call P)) (s : MemoryStore P) (entry : Entry P) (end : ℕ)
      → alive end entry ≡ true
      → Spares entry end calls
      → In entry s.messages
      → In entry (run s calls).messages
  unfolding run enqueue dequeue ack discard_dlq count_queued purge_realm
  In-run [] s entry end h spares i = i
  In-run (enqueue_call realm event message fresh t u v ∷ calls) s entry end h spares i =
      In-run calls _ entry end h spares.1
        (In-append_left entry (purge_expired s t).messages _ (In-purge s entry t end spares.0 h i))
  In-run (dequeue_call realm event consumer now ∷ calls) s entry end h spares i =
      In-run calls _ entry end h spares.1 (In-purge s entry now end spares.0 h i)
  In-run (ack_call id ∷ calls) s entry end h spares i =
      In-run calls _ entry end h spares.1
        (In-filter (λ e. not (has_id id e)) entry s.messages (other_id entry id spares.0) i)
  In-run (dead_letter_call id reason now ∷ calls) s entry end h spares i =
      In-run calls (dead_letter s id reason now).0 entry end h spares.1 (
        rw ((dead_letter_lem s id reason now).0)
          (In-filter (λ e. not (has_id id e)) entry s.messages (other_id entry id spares.0) i))
  In-run (discard_call id ∷ calls) s entry end h spares i = In-run calls _ entry end h spares i
  In-run (count_call realm event consumer now ∷ calls) s entry end h spares i =
      In-run calls _ entry end h spares.1 (In-purge s entry now end spares.0 h i)
  In-run (purge_call realm ∷ calls) s entry end h spares i = In-run calls _ entry end h spares.1 (
      In-filter (λ e. not (e.realm == realm)) entry s.messages (other_realm entry realm spares.0) i)

  -- After `enqueue`, any run of calls that spares the message leaves it deliverable: every `dequeue` of
  -- its address before its expiry hands it out, with the payload and the id that were enqueued.
  pub enqueue-dequeue :
      (s : MemoryStore P) (realm event : String) (message : Message P) (fresh : String)
      (t u v now : ℕ) (calls : List (Call P))
      → let entry = entry_of s realm event message fresh u v in
        alive now entry ≡ true
        → Spares entry now calls
        → In entry
            (dequeue
              (run (enqueue s realm event message fresh t u v).0 calls)
              entry.realm
              event
              entry.consumer
              now).1
  unfolding enqueue dequeue expires_at
  enqueue-dequeue s realm event message fresh t u v now calls h spares =
      let entry = entry_of s realm event message fresh u v in
      let start = (enqueue s realm event message fresh t u v).0 in
      let queued = In-append_right entry (purge_expired s t).messages (entry ∷ []) (inl refl) in
      let kept = In-run calls start entry now h spares queued in
      rw (or_text_idem realm "default") (
        In-filter (addressed entry.realm event entry.consumer) entry
          (filter (alive now) (run start calls).messages) (addressed_self entry)
          (In-filter (alive now) entry (run start calls).messages h kept))
