-- ===== src/ChatTickets/Bounds.antt =====
-- The store never grows past its bounds.
use tyo_mq.Prelude.{
  ℕ, ◌+◌, ◌≤◌, suc, String, false, Option, none, some, List, [], ◌∷◌, ◌≡◌, leb, length, string_eq,
  arith, Bool-cases, inl, inr,
}
use tyo_mq.Prelude.Dict
use tyo_mq.Prelude.Dict.{Dict}
use tyo_mq.ChatTickets.{
  TicketStore, Window, init, issue, verify, size, sweep, mint, make_room, store_ticket, charge,
  current_window,
}
use tyo_mq.ChatTickets.Redeem.{issue-cases}
use tyo_mq.ChatTickets.Runs.{Call, issue_call, verify_call, size_call, step, run, entry_of}

-- No window counts more uploads than the cap.
abbrev pub AllCapped : ℕ → Dict String Window → Type 0
AllCapped cap [] = Unit
AllCapped cap ((session, w) ∷ d) = (w.count ≤ cap) × AllCapped cap d

pub record IsValid (s : TicketStore) : Type 0 where
  pub within : length s.tickets ≤ s.max_tickets
  pub nodup : Dict.NodupKeys s.tickets
  pub capped : AllCapped s.upload_cap_per_window s.sessions

insert-AllCapped :
    (cap : ℕ) (session : String) (w : Window) (d : Dict String Window)
    → w.count ≤ cap
    → AllCapped cap d
    → AllCapped cap (Dict.insert session w d)
unfolding Dict.insert
insert-AllCapped cap session w [] h c = (h, tt)
insert-AllCapped cap session w (_ ∷ d) h c = ground (arith, insert-AllCapped cap session w d h)

sweep-IsValid : (s : TicketStore) (now : ℕ) → IsValid s → IsValid (sweep s now)
unfolding sweep
sweep-IsValid s now v = record {
  within = omega (arith, Dict.length-retain-le _ s.tickets);
  nodup = Dict.retain-NodupKeys _ s.tickets v.nodup;
  capped = v.capped;
}

charge-IsValid :
    (s : TicketStore) (session op : String) (now : ℕ) {s' : TicketStore}
    → IsValid s
    → charge s session op now ≡ some s'
    → IsValid s'
unfolding charge
charge-IsValid s session op now v h =
    let w = current_window s (Dict.lookup session s.sessions) now in
    ground (
      arith,
      h,
      λ (le : suc w.count ≤ s.upload_cap_per_window).
          insert-AllCapped s.upload_cap_per_window session (record w { count = w.count + 1 })
            s.sessions (omega arith) v.capped,
    )

make_room-IsValid : (s : TicketStore) (now : ℕ) → IsValid s → IsValid (make_room s now)
unfolding make_room
make_room-IsValid s now v = elim (Bool-cases (leb s.max_tickets (length s.tickets))) [
  | inl full ↦ rw (full, make_room) (sweep-IsValid s now v)
  | inr room ↦ rw (room, make_room) v
]

module _ (hash : String → String) where
  store_ticket-IsValid :
      (s : TicketStore) (session op : String) (ref : Option String) (now : ℕ) (raw : String)
      → IsValid s
      → leb s.max_tickets (length s.tickets) ≡ false
      → IsValid (store_ticket hash s session op ref now raw)
  unfolding store_ticket
  store_ticket-IsValid s session op ref now raw v room =
      let entry = entry_of s session op ref now in
      record {
        within = ground (arith, room, v.within, Dict.length-insert (hash raw) entry s.tickets);
        nodup = Dict.insert-NodupKeys (hash raw) entry s.tickets v.nodup;
        capped = v.capped;
      }

  mint-IsValid :
      (s : TicketStore) (session op : String) (ref : Option String) (now : ℕ) (raw : String)
      → IsValid s
      → IsValid (mint hash s session op ref now raw).0
  unfolding mint
  mint-IsValid s session op ref now raw v =
      let s' = make_room s now in
      let v' = make_room-IsValid s now v in
      elim (Bool-cases (leb s'.max_tickets (length s'.tickets))) [
        | inl full ↦ rw (full, mint) v'
        | inr room ↦ rw (room, mint) (store_ticket-IsValid s' session op ref now raw v' room)
      ]

  issue-IsValid :
      (s : TicketStore) (session op : String) (ref : Option String) (now : ℕ) (raw : String)
      → IsValid s
      → IsValid (issue hash s session op ref now raw).0
  issue-IsValid s session op ref now raw v = elim (issue-cases hash s session op ref now raw) [
    | inl (same, _) ↦ rw same v
    | inr (s', charged, _, eq) ↦
        rw eq (mint-IsValid s' session op ref now raw (charge-IsValid s session op now v charged))
  ]

  verify-IsValid :
      (s : TicketStore) (raw op : String) (ref : Option String) (now : ℕ)
      → IsValid s
      → IsValid (verify hash s raw op ref now).0
  unfolding verify
  verify-IsValid s raw op ref now v =
      let s' = sweep s now in
      let v' = sweep-IsValid s now v in
      ground (
        arith,
        v'.within,
        v'.nodup,
        v'.capped,
        Dict.erase-NodupKeys (hash raw) s'.tickets v'.nodup,
        Dict.length-erase (hash raw) s'.tickets,
      )

  step-IsValid : (s : TicketStore) (call : Call) → IsValid s → IsValid (step hash s call)
  unfolding step size
  step-IsValid s (issue_call session op ref now raw) v = issue-IsValid s session op ref now raw v
  step-IsValid s (verify_call raw op ref now) v = verify-IsValid s raw op ref now v
  step-IsValid s (size_call none) v = v
  step-IsValid s (size_call (some now)) v = sweep-IsValid s now v

  run-IsValid : (calls : List Call) (s : TicketStore) → IsValid s → IsValid (run hash s calls)
  unfolding run
  run-IsValid [] s v = v
  run-IsValid (call ∷ calls) s v = run-IsValid calls (step hash s call) (step-IsValid s call v)

  -- In every state that any calls reach from a new store, no two entries share a hash, there are at
  -- most `max_tickets` tickets, and no session's window counts more uploads than the cap.
  pub run-init-IsValid :
      (ttl cap window max_tickets : Option ℕ) (calls : List Call)
      → IsValid (run hash (init ttl cap window max_tickets) calls)
  unfolding init
  run-init-IsValid ttl cap window max_tickets calls =
      run-IsValid calls (init ttl cap window max_tickets)
        (record { within = omega arith; nodup = tt; capped = tt })
