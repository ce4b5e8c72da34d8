-- ===== src/ChatTickets/Redeem.antt =====
-- What `verify` answers and what it leaves in the store; a ticket is redeemed once.
use tyo_mq.Prelude.{
  ℕ, ◌≤◌, String, Bool, true, false, Option, none, some, ◌&&◌, ◌≡◌, ◌≢◌, ◌⊎◌, refl, ◌∙◌, leb, not,
  length, if◌then◌else◌, ◌==◌, string_eq, arith, Bool-cases, Option-cases, inl, inr,
}
use tyo_mq.Prelude.Dict
use tyo_mq.Prelude.Dict.{keep_if}
use tyo_mq.ChatTickets.{
  TicketStore, Ticket, Issued, ticket, thrown, is_live, sweep, issue, verify, redeems, is_expired,
  mint, make_room, store_ticket, charge, check_arguments,
}

-- Whether the call stored a ticket.
abbrev pub stored : Issued → Bool
stored (ticket raw) = true
stored (thrown code) = false

module _ (hash : String → String) where
  pub lookup-sweep :
      (s : TicketStore) (now : ℕ) (k : String)
      → Dict.NodupKeys s.tickets
      → Dict.lookup k (sweep s now).tickets ≡ keep_if (is_live now) (Dict.lookup k s.tickets)
  unfolding sweep
  lookup-sweep s now k n = Dict.lookup-retain (λ _ entry. is_live now entry) k s.tickets n

  not_expired : (o : Option Ticket) (now : ℕ) → is_expired (keep_if (is_live now) o) now ≡ false
  unfolding is_expired keep_if
  not_expired none now = refl
  not_expired (some entry) now = ground arith

  redeems-live :
      (o : Option Ticket) (op : String) (ref : Option String) (now : ℕ)
      → redeems (keep_if (is_live now) o) op ref now ≡ redeems o op ref now
  unfolding redeems keep_if
  redeems-live none op ref now = refl
  redeems-live (some entry) op ref now = ground arith

  pub sweep-NodupKeys :
      (s : TicketStore) (now : ℕ) → Dict.NodupKeys s.tickets → Dict.NodupKeys (sweep s now).tickets
  unfolding sweep
  sweep-NodupKeys s now n = Dict.retain-NodupKeys _ s.tickets n

  -- `verify` answers true exactly if the ticket's entry is live and agrees in the operation and, for a
  -- download, in the reference. Then that entry is removed. Otherwise every live entry stays, so that
  -- a probe with a wrong operation or reference burns nothing; expired entries go in both cases.
  pub verify_lem :
      (s : TicketStore) (raw op : String) (ref : Option String) (now : ℕ)
      → Dict.NodupKeys s.tickets
      → let answer = not (raw == "") && redeems (Dict.lookup (hash raw) s.tickets) op ref now in
        ((verify hash s raw op ref now).1 ≡ answer)
        × ((k : String)
            → Dict.lookup k (verify hash s raw op ref now).0.tickets ≡ (
                if answer && k == hash raw
                then none
                else keep_if (is_live now) (Dict.lookup k s.tickets)))
  unfolding verify
  verify_lem s raw op ref now n =
      let s' = sweep s now in
      let n' = sweep-NodupKeys s now n in
      let found = lookup-sweep s now (hash raw) n in
      rw (found, not_expired, redeems-live)
        (elim (Bool-cases (raw == "")) [
          | inl empty ↦ rw empty (refl, λ k. lookup-sweep s now k n)
          | inr full ↦
              rw full (elim (Bool-cases (redeems (Dict.lookup (hash raw) s.tickets) op ref now)) [
                | inl good ↦ rw good (
                  refl,
                  λ k. Dict.lookup-erase k (hash raw) s'.tickets n' ∙ rw (lookup-sweep s now k n),
                )
                | inr bad ↦ rw bad (refl, λ k. lookup-sweep s now k n)
              ])
        ])

  pub tickets-charge :
      (s : TicketStore) (session op : String) (now : ℕ) {s' : TicketStore}
      → charge s session op now ≡ some s'
      → (s'.tickets ≡ s.tickets) × (s'.ttl_ms ≡ s.ttl_ms)
  unfolding charge
  tickets-charge s session op now h = ground arith

  pub make_room-NodupKeys :
      (s : TicketStore) (now : ℕ)
      → Dict.NodupKeys s.tickets
      → Dict.NodupKeys (make_room s now).tickets
  unfolding make_room
  make_room-NodupKeys s now n = elim (Bool-cases (leb s.max_tickets (length s.tickets))) [
    | inl full ↦ rw (full, make_room) (sweep-NodupKeys s now n)
    | inr room ↦ rw (room, make_room) n
  ]

  pub lookup-make_room :
      (s : TicketStore) (now : ℕ) (k : String) (entry : Ticket)
      → Dict.NodupKeys s.tickets
      → Dict.lookup k s.tickets ≡ some entry
      → now ≤ entry.exp
      → Dict.lookup k (make_room s now).tickets ≡ some entry
  unfolding make_room keep_if
  lookup-make_room s now k entry n e live =
      elim (Bool-cases (leb s.max_tickets (length s.tickets))) [
        | inl full ↦ rw (full, make_room) (lookup-sweep s now k n ∙ rw e (ground arith))
        | inr room ↦ rw (room, make_room) e
      ]

  pub lookup-make_room-none :
      (s : TicketStore) (now : ℕ) (k : String)
      → Dict.NodupKeys s.tickets
      → Dict.lookup k s.tickets ≡ none
      → Dict.lookup k (make_room s now).tickets ≡ none
  unfolding make_room keep_if
  lookup-make_room-none s now k n e = elim (Bool-cases (leb s.max_tickets (length s.tickets))) [
    | inl full ↦ rw (full, make_room) (lookup-sweep s now k n ∙ rw e refl)
    | inr room ↦ rw (room, make_room) e
  ]

  pub lookup-mint :
      (s : TicketStore) (session op : String) (ref : Option String) (now : ℕ) (raw k : String)
      → k ≢ hash raw
      → Dict.lookup k (mint hash s session op ref now raw).0.tickets
        ≡ Dict.lookup k (make_room s now).tickets
  unfolding mint store_ticket
  lookup-mint s session op ref now raw k other =
      elim (Bool-cases (leb (make_room s now).max_tickets (length (make_room s now).tickets))) [
        | inl full ↦ rw full refl
        | inr room ↦
            rw room (Dict.lookup-insert k (hash raw) _ (make_room s now).tickets ∙ ground arith)
      ]

  pub mint-NodupKeys :
      (s : TicketStore) (session op : String) (ref : Option String) (now : ℕ) (raw : String)
      → Dict.NodupKeys s.tickets
      → Dict.NodupKeys (mint hash s session op ref now raw).0.tickets
  unfolding mint store_ticket
  mint-NodupKeys s session op ref now raw n =
      elim (Bool-cases (leb (make_room s now).max_tickets (length (make_room s now).tickets))) [
        | inl full ↦ rw full (make_room-NodupKeys s now n)
        | inr room ↦ rw room (Dict.insert-NodupKeys (hash raw) _ _ (make_room-NodupKeys s now n))
      ]

  -- Every outcome of `issue` leaves the tickets alone, or mints after the window was charged.
  pub issue-cases :
      (s : TicketStore) (session op : String) (ref : Option String) (now : ℕ) (raw : String)
      → (((issue hash s session op ref now raw).0 ≡ s)
          × (stored (issue hash s session op ref now raw).1 ≡ false))
        ⊎ ((s' : TicketStore) × (charge s session op now ≡ some s')
            × (check_arguments session op ref ≡ none)
            × (issue hash s session op ref now raw ≡ mint hash s' session op ref now raw))
  unfolding issue
  issue-cases s session op ref now raw = elim (Option-cases (check_arguments session op ref)) [
    | inr (code, e) ↦ inl (rw (e, issue) (refl, refl))
    | inl e ↦ elim (Option-cases (charge s session op now)) [
      | inl e' ↦ inl (rw (e, e', issue) (refl, refl))
      | inr (s', e') ↦ inr (s', e', e, rw (e, e', issue) refl)
    ]
  ]
