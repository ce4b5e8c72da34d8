-- ===== src/Limits/Checks.antt =====
-- The checks of lib/limits.js: connections, produced messages and new realms.
use tyo_mq.Prelude.{
  ℕ, suc, ◌-◌, ◌*◌, max, Bool, false, Option, none, some, List, [], ◌++◌, not, leb, if◌then◌else◌,
  ◌==◌, codes_eq, nat_eq,
}
use tyo_mq.Prelude.Dict
use tyo_mq.Prelude.Dict.{Dict}
use tyo_mq.Prelude.Text.{codes}
use tyo_mq.Limits.{
  Name, messages_per_second, message_burst, bytes_per_second, bytes_burst, max_connections_per_ip,
  connections_per_minute_per_ip, realms_per_hour_per_ip, Config, Limits, Rate, Verdict, ok,
  retry_after, enabled, value, take,
}

pub data Answer : Type 0 where
  allowed : Answer
  denied : Name → ℕ → Answer

-- One call of `_config`: the reading of the clock, and the settings at that time.
pub record Reading : Type 0 where
  pub now : ℕ
  pub raw : Option Config

-- The readings of a new connection, in order: of `enabled` in the handler, of `enabled` and the two
-- calls of `value` in connectionAllowed, and of `_take`.
pub record Clock : Type 0 where
  pub head : Reading
  pub on : Reading
  pub limit : Reading
  pub rate : Reading
  pub taken : ℕ

-- `String(ip || 'unknown')`
abbrev pub address_of : List ℕ → List ℕ
address_of ip = if ip == [] then codes "unknown" else ip

abbrev pub per_second : ℕ → Rate
per_second n = record { amount = n; period = 1000 }

abbrev pub per_minute : ℕ → Rate
per_minute n = record { amount = n; period = 60 * 1000 }

abbrev pub per_hour : ℕ → Rate
per_hour n = record { amount = n; period = 3600 * 1000 }

-- The answer to a refused take.
unfoldable pub answer : Name → Verdict → Answer
answer name ok = allowed
answer name (retry_after n) = denied name n

abbrev pub or_zero : Option ℕ → ℕ
or_zero none = 0
or_zero (some n) = n

-- `this._connections.get(ip) || 0`
unfoldable pub count_of : Limits → List ℕ → ℕ
count_of s ip = or_zero (Dict.lookup ip s.connections)

-- The connection is counted if the verdict is ok.
unfoldable pub count_if : List ℕ → ℕ → Limits × Verdict → Limits × Answer
count_if ip current (s, ok) =
    (record s { connections = Dict.insert ip (suc current) s.connections }, allowed)
count_if ip current (s, retry_after n) = (s, denied connections_per_minute_per_ip n)

-- The second half of `connectionAllowed`.
unfoldable pub check_rate : Limits → ℕ → List ℕ → ℕ → Option ℕ → Limits × Answer
check_rate s now ip current none = count_if ip current (s, ok)
check_rate s now ip current (some per) =
    count_if ip current (take s now (codes "connrate:" ++ ip) (some (per_minute per)) per 1)

-- A count that reached its limit.
abbrev pub reaches : Option ℕ → ℕ → Bool
reaches none n = false
reaches (some limit) n = leb limit n

-- `connectionAllowed`
unfoldable pub connection_allowed : Limits → Clock → List ℕ → Limits × Answer
connection_allowed s c ip =
    let (s1, on) = enabled s c.on.now c.on.raw in
    let (s2, limit) = value s1 c.limit.now c.limit.raw [] max_connections_per_ip in
    let current = count_of s2 (address_of ip) in
    let (s3, per) = value s2 c.rate.now c.rate.raw [] connections_per_minute_per_ip in
    if not on
    then (s1, allowed)
    else if reaches limit current
    then (s2, denied max_connections_per_ip 30)
    else check_rate s3 c.taken (address_of ip) current per

-- `releaseConnection`
unfoldable pub release_connection : Limits → List ℕ → Limits
release_connection s ip =
    let current = count_of s (address_of ip) in
    if leb current 1
    then record s { connections = Dict.erase (address_of ip) s.connections }
    else record s { connections = Dict.insert (address_of ip) (current - 1) s.connections }

abbrev or_number : Option ℕ → ℕ → ℕ
or_number none d = d
or_number (some n) d = n

-- One of the two halves of `produceAllowed`: the rate, its burst and what a message costs, with the
-- readings of the burst and of `_take`.
unfoldable pub check_produced :
    Limits → Reading → ℕ → List ℕ → List ℕ → Name → Name → ℕ → ℕ → Option ℕ → Limits × Answer
check_produced s r taken realm key name burst_name times cost none = (s, allowed)
check_produced s r taken realm key name burst_name times cost (some rate) =
    let (s', burst) = value s r.now r.raw realm burst_name in
    let (s'', verdict) =
      take s' taken key (some (per_second rate)) (or_number burst (rate * times)) cost in
    (s'', answer name verdict)

-- The readings of one half of `produceAllowed`, in order.
pub record HalfClock : Type 0 where
  pub rate : Reading
  pub burst : Reading
  pub taken : ℕ

unfoldable pub check_bytes : HalfClock → List ℕ → List ℕ → ℕ → Limits × Answer → Limits × Answer
check_bytes h socket realm bytes (s, denied name n) = (s, denied name n)
check_bytes h socket realm bytes (s, allowed) =
    let (s', rate) = value s h.rate.now h.rate.raw realm bytes_per_second in
    check_produced s' h.burst h.taken realm (codes "bytes:" ++ socket) bytes_per_second bytes_burst
      2 (max 1 bytes) rate

-- `produceAllowed`
unfoldable pub produce_allowed :
    Limits → Reading → HalfClock → HalfClock → List ℕ → List ℕ → ℕ → Limits × Answer
produce_allowed s r h h' socket realm bytes =
    let (s1, on) = enabled s r.now r.raw in
    let (s2, rate) = value s1 h.rate.now h.rate.raw realm messages_per_second in
    if not on
    then (s1, allowed)
    else check_bytes h' socket realm bytes (
        check_produced s2 h.burst h.taken realm (codes "msg:" ++ socket) messages_per_second
          message_burst 3 1 rate)

unfoldable pub check_realms : Limits → ℕ → List ℕ → Option ℕ → Limits × Answer
check_realms s now ip none = (s, allowed)
check_realms s now ip (some per) =
    let (s', verdict) =
      take s now (codes "realmrate:" ++ address_of ip) (some (per_hour per)) per 1 in
    (s', answer realms_per_hour_per_ip verdict)

-- `realmCreationAllowed`, with the readings of `enabled`, `value` and `_take`
unfoldable pub realm_creation_allowed : Limits → Reading → Reading → ℕ → List ℕ → Limits × Answer
realm_creation_allowed s r r' taken ip =
    let (s1, on) = enabled s r.now r.raw in
    let (s2, per) = value s1 r'.now r'.raw [] realms_per_hour_per_ip in
    if not on then (s1, allowed) else check_realms s2 taken ip per

-- `forgetSocket`
unfoldable pub forget_socket : Limits → List ℕ → Limits
forget_socket s socket = record s {
  buckets = Dict.erase (codes "bytes:" ++ socket) (Dict.erase (codes "msg:" ++ socket) s.buckets);
}
