-- ===== src/ChatTickets/Runs.antt =====
-- Tickets over runs of the store: what was issued can be redeemed, and what was redeemed cannot.
use tyo_mq.Prelude.{
  ℕ, ◌+◌, ◌≤◌, String, true, false, Option, none, some, List, [], ◌∷◌, ◌≡◌, ◌≢◌, refl, ap, ◌∙◌, sym,
  if◌then◌else◌, ◌==◌, ==_refl, string_eq, arith, inl, inr,
}
use tyo_mq.Prelude.Dict
use tyo_mq.Prelude.Dict.{keep_if}
use tyo_mq.ChatTickets.{
  TicketStore, Ticket, ticket, issue, verify, size, redeems, same_ref, mint, make_room,
  store_ticket, sweep,
}
use tyo_mq.ChatTickets.Redeem.{
  lookup-sweep, sweep-NodupKeys, verify_lem, tickets-charge, lookup-make_room,
  lookup-make_room-none, stored, lookup-mint, mint-NodupKeys, issue-cases,
}

pub data Call : Type 0 where
  issue_call : String → String → Option String → ℕ → String → Call
  verify_call : String → String → Option String → ℕ → Call
  size_call : Option ℕ → Call

redeems-none : (op : String) (ref : Option String) (now : ℕ) → redeems none op ref now ≡ false
unfolding redeems
redeems-none op ref now = refl

same_ref_refl : (ref : Option String) → same_ref ref ref ≡ true
unfolding same_ref
same_ref_refl none = refl
same_ref_refl (some a) = ==_refl a

-- The entry that `issue` stores.
abbrev pub entry_of : TicketStore → String → String → Option String → ℕ → Ticket
entry_of s session op ref now = record {
  op = op;
  ref = if op == "download" then ref else none;
  session = session;
  exp = now + s.ttl_ms;
}

redeems-entry_of :
    (s : TicketStore) (session op : String) (ref : Option String) (now later : ℕ)
    → later ≤ now + s.ttl_ms
    → redeems (some (entry_of s session op ref now)) op ref later ≡ true
unfolding redeems
redeems-entry_of s session op ref now later le = rw (==_refl op) (ground (arith, same_ref_refl ref))

module _ (hash : String → String) where
  unfoldable pub step : TicketStore → Call → TicketStore
  step s (issue_call session op ref now raw) = (issue hash s session op ref now raw).0
  step s (verify_call raw op ref now) = (verify hash s raw op ref now).0
  step s (size_call now) = (size s now).0

  unfoldable pub run : TicketStore → List Call → TicketStore
  unfolding step
  run s [] = s
  run s (call ∷ calls) = run (step s call) calls

  pub issue-NodupKeys :
      (s : TicketStore) (session op : String) (ref : Option String) (now : ℕ) (raw : String)
      → Dict.NodupKeys s.tickets
      → Dict.NodupKeys (issue hash s session op ref now raw).0.tickets
  issue-NodupKeys s session op ref now raw n = elim (issue-cases hash s session op ref now raw) [
    | inl (same, _) ↦ rw same n
    | inr (s', charged, _, e) ↦
        let n' : Dict.NodupKeys s'.tickets =
          rw (tickets-charge hash s session op now charged).0 n in
        rw e (mint-NodupKeys hash s' session op ref now raw n')
  ]

  pub verify-NodupKeys :
      (s : TicketStore) (raw op : String) (ref : Option String) (now : ℕ)
      → Dict.NodupKeys s.tickets
      → Dict.NodupKeys (verify hash s raw op ref now).0.tickets
  unfolding verify
  verify-NodupKeys s raw op ref now n =
      let n' = sweep-NodupKeys hash s now n in
      ground (arith, n', Dict.erase-NodupKeys (hash raw) _ n')

  step-NodupKeys :
      (s : TicketStore) (call : Call)
      → Dict.NodupKeys s.tickets
      → Dict.NodupKeys (step s call).tickets
  unfolding step size
  step-NodupKeys s (issue_call session op ref now raw) n =
      issue-NodupKeys s session op ref now raw n
  step-NodupKeys s (verify_call raw op ref now) n = verify-NodupKeys s raw op ref now n
  step-NodupKeys s (size_call none) n = n
  step-NodupKeys s (size_call (some now)) n = sweep-NodupKeys hash s now n

  -- No call of the run issues a ticket with this hash again.
  abbrev pub NeverIssued : String → List Call → Type 0
  NeverIssued key [] = Unit
  NeverIssued key (issue_call session op ref now raw ∷ calls) =
      (key ≢ hash raw) × NeverIssued key calls
  NeverIssued key (verify_call raw op ref now ∷ calls) = NeverIssued key calls
  NeverIssued key (size_call now ∷ calls) = NeverIssued key calls

  issue-absent :
      (s : TicketStore) (session op : String) (ref : Option String) (now : ℕ) (raw key : String)
      → Dict.NodupKeys s.tickets
      → key ≢ hash raw
      → Dict.lookup key s.tickets ≡ none
      → Dict.lookup key (issue hash s session op ref now raw).0.tickets ≡ none
  issue-absent s session op ref now raw key n other e =
      elim (issue-cases hash s session op ref now raw) [
        | inl (same, _) ↦ rw same e
        | inr (s', charged, _, eq) ↦
            let same = (tickets-charge hash s session op now charged).0 in
            let n' : Dict.NodupKeys s'.tickets = rw same n in
            let e' : Dict.lookup key s'.tickets ≡ none = rw same e in
            rw eq (
              lookup-mint hash s' session op ref now raw key other
              ∙ lookup-make_room-none hash s' now key n' e')
      ]

  verify-absent :
      (s : TicketStore) (raw op : String) (ref : Option String) (now : ℕ) (key : String)
      → Dict.NodupKeys s.tickets
      → Dict.lookup key s.tickets ≡ none
      → Dict.lookup key (verify hash s raw op ref now).0.tickets ≡ none
  unfolding keep_if
  verify-absent s raw op ref now key n e =
      (verify_lem hash s raw op ref now n).1 key ∙ rw e (ground arith)

  run-absent :
      (calls : List Call) (s : TicketStore) (key : String)
      → Dict.NodupKeys s.tickets
      → NeverIssued key calls
      → Dict.lookup key s.tickets ≡ none
      → Dict.lookup key (run s calls).tickets ≡ none
  unfolding run size keep_if
  run-absent [] s key n never e = e
  run-absent (issue_call session op ref now raw ∷ calls) s key n never e =
      run-absent calls _ key (issue-NodupKeys s session op ref now raw n) never.1
        (issue-absent s session op ref now raw key n never.0 e)
  run-absent (verify_call raw op ref now ∷ calls) s key n never e =
      run-absent calls _ key (verify-NodupKeys s raw op ref now n) never
        (verify-absent s raw op ref now key n e)
  run-absent (size_call none ∷ calls) s key n never e = run-absent calls s key n never e
  run-absent (size_call (some now) ∷ calls) s key n never e =
      run-absent calls _ key (sweep-NodupKeys hash s now n) never
        (lookup-sweep hash s now key n ∙ rw e refl)

  pub run-NodupKeys :
      (calls : List Call) (s : TicketStore)
      → Dict.NodupKeys s.tickets
      → Dict.NodupKeys (run s calls).tickets
  unfolding run
  run-NodupKeys [] s n = n
  run-NodupKeys (call ∷ calls) s n = run-NodupKeys calls (step s call) (step-NodupKeys s call n)

  -- A redeemed ticket is never redeemed again: after any run of further calls that does not issue a
  -- ticket with the same hash, `verify` answers false for every operation, reference and time.
  pub verify_once :
      (s : TicketStore) (raw op op' : String) (ref ref' : Option String) (now later : ℕ)
      (calls : List Call)
      → Dict.NodupKeys s.tickets
      → (verify hash s raw op ref now).1 ≡ true
      → NeverIssued (hash raw) calls
      → (verify hash (run (verify hash s raw op ref now).0 calls) raw op' ref' later).1 ≡ false
  verify_once s raw op op' ref ref' now later calls n good never =
      let (answer, left) = verify_lem hash s raw op ref now n in
      let gone : Dict.lookup (hash raw) (verify hash s raw op ref now).0.tickets ≡ none =
        left (hash raw) ∙ rw (sym answer ∙ good, ==_refl (hash raw)) refl in
      let n' = verify-NodupKeys s raw op ref now n in
      let gone' = run-absent calls (verify hash s raw op ref now).0 (hash raw) n' never gone in
      let end = run (verify hash s raw op ref now).0 calls in
      (verify_lem hash end raw op' ref' later (run-NodupKeys calls _ n')).0
      ∙ rw gone' (ground (arith, redeems-none op' ref' later))

  -- No call of the run issues a ticket with this hash, redeems the entry or comes after its expiry.
  abbrev pub Spares : String → Ticket → List Call → Type 0
  Spares key entry [] = Unit
  Spares key entry (issue_call session op ref now raw ∷ calls) =
      (key ≢ hash raw) × (now ≤ entry.exp) × Spares key entry calls
  Spares key entry (verify_call raw op ref now ∷ calls) =
      ((if key == hash raw then redeems (some entry) op ref now else false) ≡ false)
      × (now ≤ entry.exp)
      × Spares key entry calls
  Spares key entry (size_call none ∷ calls) = Spares key entry calls
  Spares key entry (size_call (some now) ∷ calls) = (now ≤ entry.exp) × Spares key entry calls

  issue-kept :
      (s : TicketStore) (session op : String) (ref : Option String) (now : ℕ) (raw key : String)
      (entry : Ticket)
      → Dict.NodupKeys s.tickets
      → key ≢ hash raw
      → now ≤ entry.exp
      → Dict.lookup key s.tickets ≡ some entry
      → Dict.lookup key (issue hash s session op ref now raw).0.tickets ≡ some entry
  issue-kept s session op ref now raw key entry n other le e =
      elim (issue-cases hash s session op ref now raw) [
        | inl (same, _) ↦ rw same e
        | inr (s', charged, _, eq) ↦
            let same = (tickets-charge hash s session op now charged).0 in
            let n' : Dict.NodupKeys s'.tickets = rw same n in
            let e' : Dict.lookup key s'.tickets ≡ some entry = rw same e in
            rw eq (
              lookup-mint hash s' session op ref now raw key other
              ∙ lookup-make_room hash s' now key entry n' e' le)
      ]

  verify-kept :
      (s : TicketStore) (raw op : String) (ref : Option String) (now : ℕ) (key : String)
      (entry : Ticket)
      → Dict.NodupKeys s.tickets
      → (if key == hash raw then redeems (some entry) op ref now else false) ≡ false
      → now ≤ entry.exp
      → Dict.lookup key s.tickets ≡ some entry
      → Dict.lookup key (verify hash s raw op ref now).0.tickets ≡ some entry
  unfolding keep_if
  verify-kept s raw op ref now key entry n spares le e =
      (verify_lem hash s raw op ref now n).1 key ∙ rw e (ground (arith, spares, e))

  run-kept :
      (calls : List Call) (s : TicketStore) (key : String) (entry : Ticket)
      → Dict.NodupKeys s.tickets
      → Spares key entry calls
      → Dict.lookup key s.tickets ≡ some entry
      → Dict.lookup key (run s calls).tickets ≡ some entry
  unfolding run size keep_if
  run-kept [] s key entry n h e = e
  run-kept (issue_call session op ref now raw ∷ calls) s key entry n h e =
      run-kept calls _ key entry (issue-NodupKeys s session op ref now raw n) h.2
        (issue-kept s session op ref now raw key entry n h.0 h.1 e)
  run-kept (verify_call raw op ref now ∷ calls) s key entry n h e =
      run-kept calls _ key entry (verify-NodupKeys s raw op ref now n) h.2
        (verify-kept s raw op ref now key entry n h.0 h.1 e)
  run-kept (size_call none ∷ calls) s key entry n h e = run-kept calls s key entry n h e
  run-kept (size_call (some now) ∷ calls) s key entry n h e =
      run-kept calls _ key entry (sweep-NodupKeys hash s now n) h.1
        (lookup-sweep hash s now key n ∙ rw e (ground arith))

  lookup-mint_self :
      (s : TicketStore) (session op : String) (ref : Option String) (now : ℕ) (raw token : String)
      → (mint hash s session op ref now raw).1 ≡ ticket token
      → (token ≡ raw)
        × (Dict.lookup (hash raw) (mint hash s session op ref now raw).0.tickets
            ≡ some (entry_of s session op ref now))
  unfolding mint store_ticket make_room sweep
  lookup-mint_self s session op ref now raw token h = ground (
    arith,
    Dict.lookup-insert (hash raw) (hash raw) (entry_of s session op ref now)
        (make_room s now).tickets,
    ==_refl (hash raw),
  )

  issue-entry_of :
      (s : TicketStore) (session op : String) (ref : Option String) (now : ℕ) (raw token : String)
      → (issue hash s session op ref now raw).1 ≡ ticket token
      → (token ≡ raw)
        × (Dict.lookup (hash raw) (issue hash s session op ref now raw).0.tickets
            ≡ some (entry_of s session op ref now))
  issue-entry_of s session op ref now raw token h =
      elim (issue-cases hash s session op ref now raw) [
        | inl (_, nothing) ↦ absurd (cc (ap stored h, nothing))
        | inr (s', charged, _, eq) ↦
            let (same, minted) = lookup-mint_self s' session op ref now raw token (rw eq at h) in
            (
              same,
              rw (eq, minted)
                  (ap
                    (λ t. some (record {
                      op = op;
                      ref = if op == "download" then ref else none;
                      session = session;
                      exp = now + t;
                    }))
                    (tickets-charge hash s session op now charged).1),
            )
      ]

  -- A ticket that `issue` returned can be redeemed with its operation and reference until its expiry,
  -- after any run of calls that does not redeem it, issues no ticket with the same hash and does not
  -- go past the expiry: other uses and wrong probes never burn it.
  pub verify-issue :
      (s : TicketStore) (session op : String) (ref : Option String) (now later : ℕ)
      (raw token : String) (calls : List Call)
      → Dict.NodupKeys s.tickets
      → (issue hash s session op ref now raw).1 ≡ ticket token
      → token ≢ ""
      → Spares (hash token) (entry_of s session op ref now) calls
      → later ≤ now + s.ttl_ms
      → (verify hash (run (issue hash s session op ref now raw).0 calls) token op ref later).1
        ≡ true
  verify-issue s session op ref now later raw token calls n h full spares le =
      let (same, found) = issue-entry_of s session op ref now raw token h in
      let n' = issue-NodupKeys s session op ref now raw n in
      let start = (issue hash s session op ref now raw).0 in
      let found' : Dict.lookup (hash token) start.tickets ≡ some (entry_of s session op ref now) =
        rw same found in
      (verify_lem hash (run start calls) token op ref later (run-NodupKeys calls _ n')).0
      ∙ rw (run-kept calls start (hash token) _ n' spares found')
          (ground (arith, redeems-entry_of s session op ref now later le))
