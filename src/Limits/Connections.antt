-- ===== src/Limits/Connections.antt =====
-- The connection counts against the sockets that are connected: lib/limits.js and its calls in the
-- handlers 'connection' and 'disconnect' of lib/server.js.
pub mod Counted
pub mod Exact
use tyo_mq.Prelude.{
  ℕ, suc, ◌+◌, ◌-◌, max, ◌≤◌, ◌≡◌, ◌⊎◌, refl, ap, sym, ◌∙◌, Bool, true, false, Option, none, some,
  List, [], ◌∷◌, not, ◌||◌, leb, ltb, if◌then◌else◌, ◌==◌, ==_refl, codes_eq, nat_eq, contains,
  arith, Bool-cases, inl, inr,
}
use tyo_mq.Prelude.Dict
use tyo_mq.Prelude.Dict.{
  Dict, NodupKeys, lookup-insert, lookup-erase, insert-NodupKeys, erase-NodupKeys,
}
use tyo_mq.Prelude.Text.{codes}
use tyo_mq.Limits.{
  Name, max_connections_per_ip, connections_per_minute_per_ip, Config, Limits, Rate, Verdict, ok,
  retry_after, config, enabled, value, value_in, prune, settle, take, is_fresh, read_config,
}
use tyo_mq.Limits.Checks.{
  Clock, Answer, allowed, denied, address_of, count_of, or_zero, count_if, check_rate, reaches,
  connection_allowed, release_connection,
}

-- The limiter, and the addresses of the connected sockets that passed it (`_tyoLimitIp`): those that connected while
-- the limits were on.
pub record Server : Type 0 where
  pub limits : Limits
  pub live : List (List ℕ)

-- The socket is kept if it was allowed.
unfoldable pub seat : Server → List ℕ → Limits × Answer → Server
seat sv ip (s, allowed) = record { limits = s; live = address_of ip ∷ sv.live }
seat sv ip (s, denied name n) = record sv { limits = s }

-- The head of the handler 'connection'. Nothing is counted while the limits are off.
unfoldable pub enter : Server → Clock → List ℕ → Server
enter sv c ip =
    let (s, on) = enabled sv.limits c.head.now c.head.raw in
    let admission = connection_allowed s c ip in
    if on then seat sv ip admission else record sv { limits = s }

-- Whether the limits, if they are on at the head of the handler, are on in connectionAllowed. They are
-- read twice, and the settings are read anew in between if those in the cache are a second old.
unfoldable pub stays_on : Server → Clock → Bool
stays_on sv c =
    let (s, on) = enabled sv.limits c.head.now c.head.raw in
    let (s', still) = enabled s c.on.now c.on.raw in not on || still

-- One socket less.
unfoldable pub without : List ℕ → List (List ℕ) → List (List ℕ)
without ip [] = []
without ip (x ∷ xs) = let rest = without ip xs in if ip == x then xs else x ∷ rest

-- The part of the handler 'disconnect' that is about the limiter, for a socket that was counted.
unfoldable pub leave : Server → List ℕ → Server
leave sv ip =
    if contains sv.live (address_of ip)
    then record { limits = release_connection sv.limits ip; live = without (address_of ip) sv.live }
    else sv

-- How many of these sockets have the address.
unfoldable pub sockets_of : List ℕ → List (List ℕ) → ℕ
sockets_of ip [] = 0
sockets_of ip (x ∷ xs) = let rest = sockets_of ip xs in if ip == x then suc rest else rest

-- The counts are those of the sockets.
abbrev pub Exact : Dict (List ℕ) ℕ → List (List ℕ) → Type 0
Exact counts live =
    NodupKeys counts × ((ip : List ℕ) → or_zero (Dict.lookup ip counts) ≡ sockets_of ip live)

abbrev pub IsExact : Server → Type 0
IsExact sv = Exact sv.limits.connections sv.live

pub data Event : Type 0 where
  connects : (c : Clock) (ip : List ℕ) → Event
  disconnects : (ip : List ℕ) → Event

unfoldable pub run : Server → List Event → Server
run sv [] = sv
run sv (connects c ip ∷ es) = run (enter sv c ip) es
run sv (disconnects ip ∷ es) = run (leave sv ip) es

abbrev pub AllStayOn : Server → List Event → Type 0
AllStayOn sv [] = Unit
AllStayOn sv (connects c ip ∷ es) = (stays_on sv c ≡ true) × AllStayOn (enter sv c ip) es
AllStayOn sv (disconnects ip ∷ es) = AllStayOn (leave sv ip) es

-- The limit of connections that connectionAllowed reads, if any.
abbrev pub limit_at : Server → Clock → Option ℕ
limit_at sv c =
    let s = (enabled sv.limits c.head.now c.head.raw).0 in
    let s1 = (enabled s c.on.now c.on.raw).0 in
    (value s1 c.limit.now c.limit.raw [] max_connections_per_ip).1
