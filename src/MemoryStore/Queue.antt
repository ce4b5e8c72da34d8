-- ===== src/MemoryStore/Queue.antt =====
-- What each operation does to the view of a consumer: the queue of one address and the counts.
use tyo_mq.Prelude.{
  ℕ, zero, suc, ◌+◌, ◌≤◌, String, Bool, false, Option, none, some, List, [], ◌∷◌, ◌++◌, ◌&&◌, ◌≡◌,
  refl, ap, ◌∙◌, length, not, filter, filter-append, if◌then◌else◌, ◌==◌, eq_of_==, string_eq,
  arith, Bool-cases, inl, inr, ◌⊎◌, In,
}
use tyo_mq.MemoryStore.{
  MemoryStore, Message, Entry, DeadEntry, is_alive, alive, entry_of, enqueue, addressed, dequeue,
  has_id, ack, dead_letter, find_last, count_queued, purge_realm, or_text, expires_at,
}

is_alive_mono :
    (now later : ℕ) (e : Option ℕ) → now ≤ later → is_alive now e ≡ false → is_alive later e ≡ false
unfolding is_alive
is_alive_mono now later none le h = h
is_alive_mono now later (some zero) le h = h
is_alive_mono now later (some (suc n)) le h = ground arith

length-partition :
    {A : Type 0} (p : A → Bool) (xs : List A)
    → length (filter p xs) + length (filter (λ x. not (p x)) xs) ≡ length xs
length-partition p [] = refl
length-partition p (x ∷ xs) = ground (arith, length-partition p xs)

module _ {P : Type 0} where
  -- A purge in between is not seen by a later one.
  filter-alive :
      (now later : ℕ) (xs : List (Entry P))
      → now ≤ later
      → filter (alive later) (filter (alive now) xs) ≡ filter (alive later) xs
  filter-alive now later [] le = refl
  filter-alive now later (x ∷ xs) le =
      ground (arith, filter-alive now later xs le, is_alive_mono now later x.expires_at le)

  filter_one :
      (p q : Entry P → Bool) (x : Entry P)
      → filter q (filter p (x ∷ [])) ≡ (if p x && q x then x ∷ [] else [])
  filter_one p q x = ground arith

  -- The queue of an address: what `dequeue` hands out.
  abbrev pub queue : MemoryStore P → String → String → String → ℕ → List (Entry P)
  queue s realm event consumer now = (dequeue s realm event consumer now).1

  -- Enqueueing appends to the queue of the message's address, in order, and changes no other queue. It
  -- does not matter that it purges, as long as the clock does not go back.
  pub queue-enqueue :
      (s : MemoryStore P) (realm event realm' event' consumer' : String) (message : Message P)
      (fresh : String) (t u v now : ℕ)
      → t ≤ now
      → let entry = entry_of s realm event message fresh u v in
        queue (enqueue s realm event message fresh t u v).0 realm' event' consumer' now
        ≡ queue s realm' event' consumer' now
          ++ (if alive now entry && addressed (or_text realm' "default") event' consumer' entry
              then entry ∷ []
              else [])
  unfolding enqueue dequeue expires_at
  queue-enqueue s realm event realm' event' consumer' message fresh t u v now le =
      let entry = entry_of s realm event message fresh u v in
      let here = addressed (or_text realm' "default") event' consumer' in
      ap (filter here) (
        filter-append (alive now) (filter (alive t) s.messages) (entry ∷ [])
        ∙ ap (λ xs. xs ++ filter (alive now) (entry ∷ [])) (filter-alive t now s.messages le))
      ∙ filter-append here (filter (alive now) s.messages) (filter (alive now) (entry ∷ []))
      ∙ ap (λ xs. filter here (filter (alive now) s.messages) ++ xs)
          (filter_one (alive now) here entry)

  filter_swap :
      (p q : Entry P → Bool) (xs : List (Entry P)) → filter p (filter q xs) ≡ filter q (filter p xs)
  filter_swap p q [] = refl
  filter_swap p q (x ∷ xs) = ground (arith, filter_swap p q xs)

  -- Acknowledging an id takes it out of every queue, and nothing else.
  pub queue-ack :
      (s : MemoryStore P) (id realm event consumer : String) (now : ℕ)
      → queue (ack s id) realm event consumer now
        ≡ filter (λ entry. not (has_id id entry)) (queue s realm event consumer now)
  unfolding ack dequeue
  queue-ack s id realm event consumer now =
      let here = addressed (or_text realm "default") event consumer in
      ap (filter here) (filter_swap (alive now) (λ entry. not (has_id id entry)) s.messages)
      ∙ filter_swap here (λ entry. not (has_id id entry)) (filter (alive now) s.messages)

  find_last-some :
      (id : String) (x : Entry P) (xs : List (Entry P))
      → (y : Entry P) × (find_last id (some x) xs ≡ some y) × ((y ≡ x) ⊎ (In y xs × (y.id ≡ id)))
  unfolding find_last
  find_last-some id x [] = (x, refl, inl refl)
  find_last-some id x (z ∷ xs) = elim (Bool-cases (has_id id z)) [
    | inl same ↦
        let (y, e, w) = find_last-some id z xs in
        (
          y,
          rw same e,
          inr (elim w [
            | inl here ↦ (inl here, rw here (eq_of_== z.id id same))
            | inr (there, e') ↦ (inr there, e')
          ]),
        )
    | inr other ↦
        let (y, e, w) = find_last-some id x xs in
        (y, rw other e, elim w [ inl here ↦ inl here | inr (there, e') ↦ inr (inr there, e') ])
  ]

  find_last-cases :
      (id : String) (xs : List (Entry P))
      → ((find_last id none xs ≡ none) × (filter (λ entry. not (has_id id entry)) xs ≡ xs))
        ⊎ ((y : Entry P) × (find_last id none xs ≡ some y) × In y xs × (y.id ≡ id))
  unfolding find_last
  find_last-cases id [] = inl (refl, refl)
  find_last-cases id (z ∷ xs) = elim (Bool-cases (has_id id z)) [
    | inl same ↦
        let (y, e, w) = find_last-some id z xs in
        let place : In y (z ∷ xs) × (y.id ≡ id) = elim w [
          | inl here ↦ (inl here, rw here (eq_of_== z.id id same))
          | inr (there, e') ↦ (inr there, e')
        ] in
        inr (y, rw same e, place.0, place.1)
    | inr other ↦ elim (find_last-cases id xs) [
      | inl (e, kept) ↦ inl (rw other (e, ap (◌∷◌ z) kept))
      | inr (y, e, there, e') ↦ inr (y, rw other e, inr there, e')
    ]
  ]

  -- Moving a message to the dead letters takes its id out of every queue as `ack` does, and adds at most
  -- one dead letter: the last message with the id, if there is one.
  pub dead_letter_lem :
      (s : MemoryStore P) (id reason : String) (now : ℕ)
      → ((dead_letter s id reason now).0.messages ≡ (ack s id).messages)
        × ((((dead_letter s id reason now).1 ≡ none)
              × ((dead_letter s id reason now).0.dlq ≡ s.dlq)
              × ((ack s id).messages ≡ s.messages))
            ⊎ ((found : Entry P) × (In found s.messages)
                × (found.id ≡ id)
                × ((dead_letter s id reason now).1 ≡ some id)
                × ((dead_letter s id reason now).0.dlq
                    ≡ s.dlq
                      ++ (record { entry = found; reason = reason; dead_lettered_at = now } ∷ []))))
  unfolding dead_letter ack
  dead_letter_lem s id reason now = elim (find_last-cases id s.messages) [
    | inl (e, kept) ↦ rw (e, dead_letter) (refl, inl (refl, refl, kept))
    | inr (y, e, there, same) ↦ rw (e, dead_letter) (refl, inr (y, there, same, ap some same, refl))
  ]

  -- The count for a full address is the length of its queue.
  pub count_queued-dequeue :
      (s : MemoryStore P) (realm event consumer : String) (now : ℕ)
      → (count_queued s realm (some event) (some consumer) now).1
        ≡ length (dequeue s realm event consumer now).1
  unfolding count_queued dequeue
  count_queued-dequeue s realm event consumer now = refl

  queue-purged :
      (realm target event consumer : String) (now : ℕ) (xs : List (Entry P))
      → filter
          (addressed target event consumer)
          (filter (alive now) (filter (λ entry. not (entry.realm == realm)) xs))
        ≡ (if target == realm
            then []
            else filter (addressed target event consumer) (filter (alive now) xs))
  queue-purged realm target event consumer now [] = ground arith
  queue-purged realm target event consumer now (x ∷ xs) =
      ground (arith, queue-purged realm target event consumer now xs)

  -- Purging a realm empties its queues, leaves those of other realms as they were, and returns how many
  -- messages and dead letters of the realm there were.
  pub purge_realm_lem :
      (s : MemoryStore P) (realm realm' event consumer : String) (now : ℕ)
      → ((purge_realm s realm).1
          ≡ length (filter (λ entry. entry.realm == realm) s.messages)
            + length (filter (λ dead. dead.entry.realm == realm) s.dlq))
        × (queue (purge_realm s realm).0 realm' event consumer now
            ≡ (if or_text realm' "default" == realm then [] else queue s realm' event consumer now))
  unfolding purge_realm dequeue
  purge_realm_lem s realm realm' event consumer now = (
    omega (
      arith,
      length-partition (λ (entry : Entry P). entry.realm == realm) s.messages,
      length-partition (λ (dead : DeadEntry P). dead.entry.realm == realm) s.dlq,
    ),
    queue-purged realm (or_text realm' "default") event consumer now s.messages,
  )
