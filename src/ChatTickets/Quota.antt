-- ===== src/ChatTickets/Quota.antt =====
-- The cap on the uploads of a session.
use tyo_mq.Prelude.{
  ℕ, ◌+◌, ◌≤◌, ◌<◌, String, true, false, Option, none, some, List, [], ◌∷◌, ◌&&◌, ◌≡◌, ◌⊎◌, refl,
  ◌∙◌, if◌then◌else◌, ◌==◌, ==_refl, eq_of_==, string_eq, arith, Bool-cases, inl, inr,
}
use tyo_mq.Prelude.Dict
use tyo_mq.ChatTickets.{
  TicketStore, Window, issue, verify, size, sweep, mint, make_room, store_ticket, charge,
  current_window,
}
use tyo_mq.ChatTickets.Redeem.{stored, issue-cases}
use tyo_mq.ChatTickets.Runs.{Call, issue_call, verify_call, size_call, step}

-- What the calls leave alone for a session: its window and the store's settings.
record Keeps (session : String) (s t : TicketStore) : Type 0 where
  window : Dict.lookup session t.sessions ≡ Dict.lookup session s.sessions
  cap : t.upload_cap_per_window ≡ s.upload_cap_per_window
  window_ms : t.window_ms ≡ s.window_ms

module _ (session : String) where
  charge-Keeps :
      (s : TicketStore) (other op : String) (now : ℕ) {s' : TicketStore}
      → (session == other && op == "upload") ≡ false
      → charge s other op now ≡ some s'
      → Keeps session s s'
  unfolding charge
  charge-Keeps s other op now h e =
      let w = current_window s (Dict.lookup other s.sessions) now in
      ground (
        arith,
        h,
        e,
        Dict.lookup-insert session other (record w { count = w.count + 1 }) s.sessions,
      )

  -- A charged upload counts one more, below the cap.
  charge_upload :
      (s : TicketStore) (now : ℕ) (w : Window) {s' : TicketStore}
      → current_window s (Dict.lookup session s.sessions) now ≡ w
      → charge s session "upload" now ≡ some s'
      → (Dict.lookup session s'.sessions ≡ some (record w { count = w.count + 1 }))
        × (w.count < s.upload_cap_per_window)
        × (s'.upload_cap_per_window ≡ s.upload_cap_per_window)
        × (s'.window_ms ≡ s.window_ms)
  unfolding charge
  charge_upload s now w cur e = ground (
    arith,
    e,
    ==_refl {A = String} "upload",
    ==_refl session,
    Dict.lookup-insert session session (record w { count = w.count + 1 }) s.sessions,
  )

module _ (hash : String → String) where
  mint-Keeps :
      (session : String) (s : TicketStore) (other op : String) (ref : Option String) (now : ℕ)
      (raw : String)
      → Keeps session s (mint hash s other op ref now raw).0
  unfolding mint make_room store_ticket sweep
  mint-Keeps session s other op ref now raw = ground arith

  verify-Keeps :
      (session : String) (s : TicketStore) (raw op : String) (ref : Option String) (now : ℕ)
      → Keeps session s (verify hash s raw op ref now).0
  unfolding verify sweep
  verify-Keeps session s raw op ref now = ground arith

  issue-Keeps :
      (session : String) (s : TicketStore) (other op : String) (ref : Option String) (now : ℕ)
      (raw : String)
      → (session == other && op == "upload") ≡ false
      → Keeps session s (issue hash s other op ref now raw).0
  issue-Keeps session s other op ref now raw h = elim (issue-cases hash s other op ref now raw) [
    | inl (same, _) ↦ rw same (record { window = refl; cap = refl; window_ms = refl })
    | inr (s', charged, _, eq) ↦
        let k = charge-Keeps session s other op now h charged in
        let m = mint-Keeps session s' other op ref now raw in
        rw eq (record {
          window = m.window ∙ k.window;
          cap = m.cap ∙ k.cap;
          window_ms = m.window_ms ∙ k.window_ms;
        })
  ]

  -- The calls of the run that gave the session an upload ticket.
  unfoldable pub granted : String → TicketStore → List Call → ℕ
  granted session s [] = 0
  granted session s (issue_call other op ref now raw ∷ calls) =
      (if (session == other && op == "upload") && stored (issue hash s other op ref now raw).1
        then 1
        else 0)
      + granted session (step hash s (issue_call other op ref now raw)) calls
  granted session s (verify_call raw op ref now ∷ calls) =
      granted session (step hash s (verify_call raw op ref now)) calls
  granted session s (size_call now ∷ calls) = granted session (step hash s (size_call now)) calls

  -- Every issue of the run comes before the given time.
  abbrev pub IssuedBefore : ℕ → List Call → Type 0
  IssuedBefore end [] = Unit
  IssuedBefore end (issue_call other op ref now raw ∷ calls) = (now < end) × IssuedBefore end calls
  IssuedBefore end (verify_call raw op ref now ∷ calls) = IssuedBefore end calls
  IssuedBefore end (size_call now ∷ calls) = IssuedBefore end calls

  issue_upload :
      (session : String) (s : TicketStore) (ref : Option String) (now : ℕ) (raw : String)
      (w : Window)
      → current_window s (Dict.lookup session s.sessions) now ≡ w
      → let s' = (issue hash s session "upload" ref now raw).0 in
        ((s' ≡ s) × (stored (issue hash s session "upload" ref now raw).1 ≡ false))
        ⊎ ((Dict.lookup session s'.sessions ≡ some (record w { count = w.count + 1 }))
            × (w.count < s.upload_cap_per_window)
            × (s'.upload_cap_per_window ≡ s.upload_cap_per_window)
            × (s'.window_ms ≡ s.window_ms))
  issue_upload session s ref now raw w cur =
      elim (issue-cases hash s session "upload" ref now raw) [
        | inl same ↦ inl same
        | inr (s', charged, _, eq) ↦
            let (window, below, cap, ms) = charge_upload session s now w cur charged in
            let m = mint-Keeps session s' session "upload" ref now raw in
            inr (rw eq (m.window ∙ window, below, m.cap ∙ cap, m.window_ms ∙ ms))
      ]

  issue_same :
      (session : String) (s : TicketStore) (other op : String) (ref : Option String) (now : ℕ)
      (raw : String) (w : Window)
      → (session == other && op == "upload") ≡ true
      → current_window s (Dict.lookup session s.sessions) now ≡ w
      → let s' = (issue hash s other op ref now raw).0 in
        ((s' ≡ s) × (stored (issue hash s other op ref now raw).1 ≡ false))
        ⊎ ((Dict.lookup session s'.sessions ≡ some (record w { count = w.count + 1 }))
            × (w.count < s.upload_cap_per_window)
            × (s'.upload_cap_per_window ≡ s.upload_cap_per_window)
            × (s'.window_ms ≡ s.window_ms))
  issue_same session s other op ref now raw w same cur =
      let p : session ≡ other = eq_of_== session other (ground arith) in
      let q : op ≡ "upload" = eq_of_== op "upload" (ground arith) in
      rw (← p, q) (issue_upload session s ref now raw w cur)

  current_window_open :
      (s : TicketStore) (w : Window) (now : ℕ)
      → now < w.window_start + s.window_ms
      → current_window s (some w) now ≡ w
  unfolding current_window
  current_window_open s w now h = ground arith

  granted_open :
      (calls : List Call) (session : String) (s : TicketStore) (w : Window) (bound window_ms : ℕ)
      → s.upload_cap_per_window ≡ bound
      → s.window_ms ≡ window_ms
      → Dict.lookup session s.sessions ≡ some w
      → w.count ≤ bound
      → IssuedBefore (w.window_start + window_ms) calls
      → granted session s calls + w.count ≤ bound
  unfolding granted step size sweep
  granted_open [] session s w bound window_ms c m e le before = omega arith
  granted_open (issue_call other op ref now raw ∷ calls) session s w bound window_ms c m e le
        before =
      elim (Bool-cases (session == other && op == "upload")) [
        | inr different ↦
            let k = issue-Keeps session s other op ref now raw different in
            let rest =
              granted_open calls session (issue hash s other op ref now raw).0 w bound window_ms
                (k.cap ∙ c) (k.window_ms ∙ m) (k.window ∙ e) le before.1 in
            rw different (omega (arith, rest))
        | inl same ↦
            let cur : current_window s (Dict.lookup session s.sessions) now ≡ w =
              rw e (current_window_open s w now (omega (arith, before.0, m))) in
            elim (issue_same session s other op ref now raw w same cur) [
              | inl (unchanged, nothing) ↦
                  let rest : granted session (issue hash s other op ref now raw).0 calls + w.count
                      ≤ bound =
                    rw unchanged
                      (granted_open calls session s w bound window_ms c m e le before.1) in
                  rw (same, nothing) (omega (arith, rest))
              | inr (e', below, c', m') ↦
                  let rest =
                    granted_open calls session (issue hash s other op ref now raw).0
                      (record w { count = w.count + 1 }) bound window_ms (c' ∙ c) (m' ∙ m) e'
                      (omega (arith, below, c)) before.1 in
                  rw same (ground (arith, rest))
            ]
      ]
  granted_open (verify_call raw op ref now ∷ calls) session s w bound window_ms c m e le before =
      let k = verify-Keeps session s raw op ref now in
      granted_open calls session (verify hash s raw op ref now).0 w bound window_ms (k.cap ∙ c)
        (k.window_ms ∙ m) (k.window ∙ e) le before
  granted_open (size_call none ∷ calls) session s w bound window_ms c m e le before =
      granted_open calls session s w bound window_ms c m e le before
  granted_open (size_call (some now) ∷ calls) session s w bound window_ms c m e le before =
      granted_open calls session (sweep s now) w bound window_ms c m e le before

  -- A session gets at most `upload_cap_per_window` upload tickets in the time window that its first
  -- granted upload opens, whatever calls come between: the run starts with that upload at `start`, when
  -- the session has no window or its old one is over, and issues nothing after the window.
  pub granted-le :
      (calls : List Call) (session : String) (s : TicketStore) (ref : Option String) (start : ℕ)
      (raw : String)
      → current_window s (Dict.lookup session s.sessions) start
        ≡ record { count = 0; window_start = start }
      → stored (issue hash s session "upload" ref start raw).1 ≡ true
      → IssuedBefore (start + s.window_ms) calls
      → granted session s (issue_call session "upload" ref start raw ∷ calls)
        ≤ s.upload_cap_per_window
  unfolding granted step
  granted-le calls session s ref start raw fresh first before =
      elim (issue_upload session s ref start raw (record { count = 0; window_start = start })
        fresh) [
          | inl (_, nothing) ↦ absurd (cc (first, nothing))
          | inr (e, below, c, m) ↦
              let rest =
                granted_open calls session (issue hash s session "upload" ref start raw).0
                  (record { count = 1; window_start = start }) s.upload_cap_per_window s.window_ms c
                  m e (omega (arith, below)) before in
              rw (==_refl session, ==_refl {A = String} "upload", first) (omega (arith, rest))
        ]
