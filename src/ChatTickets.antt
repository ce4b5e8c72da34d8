-- ===== src/ChatTickets.antt =====
-- `ChatTicketStore` of lib/chat-ticket-store.js: one-shot attachment tickets, kept hashed.
-- `hash` stands for `hashPublishToken` and `raw` for the token that `generatePublishToken` returns.
-- A session or ticket that is no string is the empty text (the code treats both alike), and a missing
-- or null `ref` is `none`.
pub mod Redeem
pub mod Runs
pub mod Bounds
pub mod Quota
use tyo_mq.Prelude.{
  ℕ, ◌+◌, ◌*◌, min, max, String, Bool, true, false, Option, none, some, [], ◌&&◌, length, leb, ltb,
  not, or_default, if◌then◌else◌, ◌==◌, string_eq,
}
use tyo_mq.Prelude.Dict
use tyo_mq.Prelude.Dict.{Dict}

pub record Ticket : Type 0 where
  pub op : String
  pub ref : Option String
  pub session : String
  pub exp : ℕ

pub record Window : Type 0 where
  pub count : ℕ
  pub window_start : ℕ

pub record TicketStore : Type 0 where
  pub ttl_ms : ℕ
  pub upload_cap_per_window : ℕ
  pub window_ms : ℕ
  pub max_tickets : ℕ
  pub tickets : Dict String Ticket
  pub sessions : Dict String Window

-- The codes of the errors that `issue` throws.
pub data Code : Type 0 where
  missing_session invalid_op missing_ref unexpected_ref cap_exceeded store_full : Code

pub data Issued : Type 0 where
  ticket : String → Issued
  thrown : Code → Issued

unfoldable pub init : Option ℕ → Option ℕ → Option ℕ → Option ℕ → TicketStore
init ttl cap window max_tickets = record {
  ttl_ms = min (max 1 (or_default ttl (120 * 1000))) (900 * 1000);
  upload_cap_per_window = or_default cap 60;
  window_ms = or_default window (60 * 60 * 1000);
  max_tickets = or_default max_tickets 100000;
  tickets = [];
  sessions = [];
}

abbrev pub is_live : ℕ → Ticket → Bool
is_live now entry = not (ltb entry.exp now)

-- `_sweep(now)`
unfoldable pub sweep : TicketStore → ℕ → TicketStore
sweep s now = record s { tickets = Dict.retain (λ _ entry. is_live now entry) s.tickets }

-- The checks of the arguments, in their order.
unfoldable pub check_arguments : String → String → Option String → Option Code
check_arguments session op none =
    if session == ""
    then some missing_session
    else if not (op == "upload") && not (op == "download")
    then some invalid_op
    else if op == "download"
    then some missing_ref
    else none
check_arguments session op (some ref) =
    if session == ""
    then some missing_session
    else if not (op == "upload") && not (op == "download")
    then some invalid_op
    else if op == "download" && ref == ""
    then some missing_ref
    else if op == "upload"
    then some unexpected_ref
    else none

-- The window that counts: a new one if there is none or the old one is over.
unfoldable pub current_window : TicketStore → Option Window → ℕ → Window
current_window s none now = record { count = 0; window_start = now }
current_window s (some w) now =
    if leb (w.window_start + s.window_ms) now then record { count = 0; window_start = now } else w

-- The cap on uploads: none if it is reached.
unfoldable pub count_upload : TicketStore → String → ℕ → Option TicketStore
unfolding current_window
count_upload s session now =
    let w = current_window s (Dict.lookup session s.sessions) now in
    if leb s.upload_cap_per_window w.count
    then none
    else some
        (record s { sessions = Dict.insert session (record w { count = w.count + 1 }) s.sessions })

unfoldable pub charge : TicketStore → String → String → ℕ → Option TicketStore
unfolding count_upload
charge s session op now = if op == "upload" then count_upload s session now else some s

-- A sweep if the store is full.
unfoldable pub make_room : TicketStore → ℕ → TicketStore
unfolding sweep
make_room s now = if leb s.max_tickets (length s.tickets) then sweep s now else s

same_ref : Option String → Option String → Bool
same_ref none none = true
same_ref none (some b) = false
same_ref (some a) none = false
same_ref (some a) (some b) = a == b

-- The answer for a found entry.
unfoldable pub redeems : Option Ticket → String → Option String → ℕ → Bool
unfolding same_ref
redeems none op ref now = false
redeems (some entry) op ref now =
    is_live now entry
    && entry.op == op
    && (if op == "download" then same_ref entry.ref ref else true)

unfoldable pub is_expired : Option Ticket → ℕ → Bool
is_expired none now = false
is_expired (some entry) now = not (is_live now entry)

module _ (hash : String → String) where
  unfoldable pub store_ticket :
      TicketStore → String → String → Option String → ℕ → String → TicketStore
  store_ticket s session op ref now raw = record s {
    tickets =
        Dict.insert (hash raw)
          (record {
            op = op;
            ref = if op == "download" then ref else none;
            session = session;
            exp = now + s.ttl_ms;
          })
          s.tickets;
  }

  unfoldable pub mint :
      TicketStore → String → String → Option String → ℕ → String → TicketStore × Issued
  unfolding make_room store_ticket
  mint s session op ref now raw =
      let s' = make_room s now in
      if leb s'.max_tickets (length s'.tickets)
      then (s', thrown store_full)
      else (store_ticket s' session op ref now raw, ticket raw)

  -- `issue(session, op, ref, now)`. What was counted stays counted if the store turns out to be full.
  unfoldable pub issue :
      TicketStore → String → String → Option String → ℕ → String → TicketStore × Issued
  unfolding check_arguments charge mint
  issue s session op ref now raw = elim (check_arguments session op ref) [
    | some code ↦ (s, thrown code)
    | none ↦ elim (charge s session op now) [
      | none ↦ (s, thrown cap_exceeded)
      | some s' ↦ mint s' session op ref now raw
    ]
  ]

  -- `verify(ticket, op, ref, now)`
  unfoldable pub verify : TicketStore → String → String → Option String → ℕ → TicketStore × Bool
  unfolding sweep redeems is_expired
  verify s raw op ref now =
      let s' = sweep s now in
      let found = Dict.lookup (hash raw) s'.tickets in
      let without = record s' { tickets = Dict.erase (hash raw) s'.tickets } in
      if raw == ""
      then (s', false)
      else if is_expired found now
      then (without, false)
      else if redeems found op ref now
      then (without, true)
      else (s', false)

-- `size(now)`
unfoldable pub size : TicketStore → Option ℕ → TicketStore × ℕ
unfolding sweep
size s none = (s, length s.tickets)
size s (some now) = let s' = sweep s now in (s', length s'.tickets)
