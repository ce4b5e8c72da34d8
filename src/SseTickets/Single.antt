-- ===== src/SseTickets/Single.antt =====
-- A ticket opens one stream, within its time.
use tyo_mq.Prelude.{
  ℕ, ◌+◌, ◌≤◌, String, true, false, none, some, List, [], ◌∷◌, ◌≡◌, refl, ◌∙◌, inl, inr, ltb, not,
  ◌==◌, ==_refl, string_eq, arith, Bool-cases, Option-cases,
}
use tyo_mq.Prelude.Dict
use tyo_mq.Prelude.Dict.{Dict, NodupKeys, keep_if}
use tyo_mq.SseTickets.{
  Entry, Tickets, ticket_ttl_ms, issue, consume_found, consume_sse, live_entry, consume_notify,
  sweep,
}

-- The calls on one of the maps.
pub data Call : Type 0 where
  issue_call : String → String → ℕ → Call
  consume_call : String → ℕ → Call
  sweep_call : ℕ → Call

erase-none : (ticket : String) (d : Tickets) → Dict.lookup ticket d ≡ none → Dict.erase ticket d ≡ d
unfolding Dict.lookup Dict.erase
erase-none ticket [] e = refl
erase-none ticket (x ∷ d) e = ground (arith, e, erase-none ticket d)

-- Deleting first, or only what was found, comes to the same.
pub consume_notify-consume_sse :
    (d : Tickets) (ticket : String) (now : ℕ)
    → consume_notify d ticket now ≡ consume_sse d ticket now
unfolding consume_notify consume_sse consume_found live_entry
consume_notify-consume_sse d ticket now = elim (Bool-cases (ticket == "")) [
  | inl e ↦ rw e refl
  | inr e ↦ elim (Option-cases (Dict.lookup ticket d)) [
    | inl f ↦ rw (e, f, erase-none ticket d f) refl
    | inr (entry, f) ↦ rw (e, f) refl
  ]
]

unfoldable pub step : Tickets → Call → Tickets
step d (issue_call ticket subject now) = issue d ticket subject now
step d (consume_call ticket now) = (consume_sse d ticket now).0
step d (sweep_call now) = sweep d now

unfoldable pub run : Tickets → List Call → Tickets
run d [] = d
run d (c ∷ cs) = run (step d c) cs

consume-NodupKeys :
    (d : Tickets) (ticket : String) (now : ℕ) → NodupKeys d → NodupKeys (consume_sse d ticket now).0
unfolding consume_sse consume_found
consume-NodupKeys d ticket now n = let n' = Dict.erase-NodupKeys ticket d n in ground (arith, n, n')

step-NodupKeys : (d : Tickets) (c : Call) → NodupKeys d → NodupKeys (step d c)
unfolding step issue sweep
step-NodupKeys d (issue_call ticket subject now) n = Dict.insert-NodupKeys ticket _ d n
step-NodupKeys d (consume_call ticket now) n = consume-NodupKeys d ticket now n
step-NodupKeys d (sweep_call now) n = Dict.retain-NodupKeys _ d n

run-NodupKeys : (d : Tickets) (cs : List Call) → NodupKeys d → NodupKeys (run d cs)
unfolding run
run-NodupKeys d [] n = n
run-NodupKeys d (c ∷ cs) n = run-NodupKeys (step d c) cs (step-NodupKeys d c n)

module _ (ticket : String) where
  -- The calls neither issue nor consume the ticket, and sweep no later than the given time.
  abbrev pub Spares : ℕ → List Call → Type 0
  Spares until [] = Unit
  Spares until (issue_call other subject now ∷ cs) = ((ticket == other) ≡ false) × Spares until cs
  Spares until (consume_call other now ∷ cs) = ((ticket == other) ≡ false) × Spares until cs
  Spares until (sweep_call now ∷ cs) = (now ≤ until) × Spares until cs

  -- The calls do not issue the ticket anew.
  abbrev pub NeverIssues : List Call → Type 0
  NeverIssues [] = Unit
  NeverIssues (issue_call other subject now ∷ cs) = ((ticket == other) ≡ false) × NeverIssues cs
  NeverIssues (consume_call other now ∷ cs) = NeverIssues cs
  NeverIssues (sweep_call now ∷ cs) = NeverIssues cs

  consume-lookup_other :
      (d : Tickets) (other : String) (now : ℕ)
      → (ticket == other) ≡ false
      → Dict.lookup ticket (consume_sse d other now).0 ≡ Dict.lookup ticket d
  unfolding consume_sse consume_found
  consume-lookup_other d other now differs =
      let e = Dict.lookup-erase-false ticket other d differs in ground (arith, e)

  run-Spares :
      (d : Tickets) (entry : Entry) (cs : List Call)
      → NodupKeys d
      → Dict.lookup ticket d ≡ some entry
      → Spares entry.expires cs
      → Dict.lookup ticket (run d cs) ≡ some entry
  unfolding run step issue sweep keep_if
  run-Spares d entry [] n e s = e
  run-Spares d entry (issue_call other subject now ∷ cs) n e (differs, s) =
      run-Spares (issue d other subject now) entry cs
        (step-NodupKeys d (issue_call other subject now) n)
        (Dict.lookup-insert ticket other _ d ∙ rw differs e) s
  run-Spares d entry (consume_call other now ∷ cs) n e (differs, s) =
      run-Spares (consume_sse d other now).0 entry cs (consume-NodupKeys d other now n)
        (consume-lookup_other d other now differs ∙ e) s
  run-Spares d entry (sweep_call now ∷ cs) n e (le, s) =
      let kept : not (ltb entry.expires now) ≡ true = ground (arith, le) in
      run-Spares (sweep d now) entry cs (step-NodupKeys d (sweep_call now) n)
        (Dict.lookup-retain _ ticket d n ∙ rw (e, keep_if, kept) refl) s

  -- Whatever a consumed ticket was, it is gone.
  consume-lookup :
      (d : Tickets) (now : ℕ)
      → NodupKeys d
      → (ticket == "") ≡ false
      → Dict.lookup ticket (consume_sse d ticket now).0 ≡ none
  unfolding consume_sse consume_found
  consume-lookup d now n named = elim (Option-cases (Dict.lookup ticket d)) [
    | inl e ↦ rw (named, e) e
    | inr (entry, e) ↦
        rw (named, e) (Dict.lookup-erase ticket ticket d n ∙ rw (==_refl ticket) refl)
  ]

  step-none :
      (d : Tickets) (c : Call)
      → NeverIssues (c ∷ [])
      → NodupKeys d
      → Dict.lookup ticket d ≡ none
      → Dict.lookup ticket (step d c) ≡ none
  unfolding step issue sweep consume_sse consume_found
  step-none d (issue_call other subject now) (differs, h) n e =
      Dict.lookup-insert ticket other _ d ∙ rw differs e
  step-none d (sweep_call now) h n e = Dict.lookup-retain-none _ ticket d e
  step-none d (consume_call other now) h n e =
      let gone = Dict.lookup-erase ticket other d n in ground (arith, e, gone)

  run-none :
      (d : Tickets) (cs : List Call)
      → NeverIssues cs
      → NodupKeys d
      → Dict.lookup ticket d ≡ none
      → Dict.lookup ticket (run d cs) ≡ none
  unfolding run
  run-none d [] h n e = e
  run-none d (issue_call other subject now ∷ cs) (differs, h) n e =
      let c = issue_call other subject now in
      run-none (step d c) cs h (step-NodupKeys d c n) (step-none d c (differs, tt) n e)
  run-none d (consume_call other now ∷ cs) h n e =
      let c = consume_call other now in
      run-none (step d c) cs h (step-NodupKeys d c n) (step-none d c tt n e)
  run-none d (sweep_call now ∷ cs) h n e =
      let c = sweep_call now in
      run-none (step d c) cs h (step-NodupKeys d c n) (step-none d c tt n e)

  consume-none :
      (d : Tickets) (now : ℕ) → Dict.lookup ticket d ≡ none → (consume_sse d ticket now).1 ≡ none
  unfolding consume_sse consume_found
  consume-none d now e = ground (arith, e)

  consume-some :
      (d : Tickets) (now : ℕ) (entry : Entry)
      → (ticket == "") ≡ false
      → Dict.lookup ticket d ≡ some entry
      → now ≤ entry.expires
      → (consume_sse d ticket now).1 ≡ some entry
  unfolding consume_sse consume_found
  consume-some d now entry named e le = ground (arith, named, e, le)

  -- After a ticket was consumed, accepted or not, and any calls that do not issue the same text again, it is never
  -- accepted.
  pub consume_once :
      (before cs : List Call) (first later : ℕ)
      → let d = (consume_sse (run [] before) ticket first).0 in
        (ticket == "") ≡ false → NeverIssues cs → (consume_sse (run d cs) ticket later).1 ≡ none
  consume_once before cs first later named h =
      let start = run [] before in
      let n = run-NodupKeys [] before tt in
      consume-none (run (consume_sse start ticket first).0 cs) later (
        run-none (consume_sse start ticket first).0 cs h (consume-NodupKeys start ticket first n)
          (consume-lookup start first n named))

  -- An issued ticket is accepted for its realm or topic, by either way of consuming it, until its time is over, after any calls that
  -- neither issue nor consume it and do not sweep later than that.
  pub consume-issue :
      (before cs : List Call) (subject : String) (now later : ℕ)
      → (ticket == "") ≡ false
      → Spares (now + ticket_ttl_ms) cs
      → later ≤ now + ticket_ttl_ms
      → let d = run (issue (run [] before) ticket subject now) cs in
        let entry : Entry = record { subject = subject; expires = now + ticket_ttl_ms } in
        ((consume_sse d ticket later).1 ≡ some entry)
        × ((consume_notify d ticket later).1 ≡ some entry)
  unfolding issue
  consume-issue before cs subject now later named h le =
      let entry : Entry = record { subject = subject; expires = now + ticket_ttl_ms } in
      let start = run [] before in
      let n = run-NodupKeys [] before tt in
      let issued = Dict.insert ticket entry start in
      let e : Dict.lookup ticket issued ≡ some entry =
        Dict.lookup-insert ticket ticket entry start ∙ rw (==_refl ticket) refl in
      let held = run-Spares issued entry cs (Dict.insert-NodupKeys ticket entry start n) e h in
      let accepted = consume-some (run issued cs) later entry named held le in
      (accepted, rw (consume_notify-consume_sse (run issued cs) ticket later) accepted)
