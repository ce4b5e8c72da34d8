-- ===== src/Tests/Rates.antt =====
-- Concrete limits.
use tyo_mq.Prelude.{
  ℕ, suc, ◌+◌, ◌-◌, ◌*◌, ◌≤◌, ◌≡◌, refl, max, true, false, Option, none, some, List, [], ◌∷◌,
  nat_eq, codes_eq, arith,
}
use tyo_mq.Prelude.Dict
use tyo_mq.Prelude.Dict.{NodupKeys}
use tyo_mq.Prelude.Text.{codes}
use tyo_mq.Limits.{
  Name, max_connections_per_ip, realms_per_hour_per_ip, Setting, undefined, number, Config, Limits,
  ok, init, config, is_fresh, read_config, enabled, value, value_in, override, take, settle, prune,
  refilled, seconds_to_wait,
}
use tyo_mq.Limits.Checks.{
  Reading, Clock, denied, per_hour, per_second, realm_creation_allowed, check_realms, answer,
  connection_allowed, check_rate, count_if, count_of,
}
use tyo_mq.Limits.Quota.{mine, total, total-le}
use tyo_mq.Limits.Connections.{
  Server, IsExact, Event, connects, disconnects, run, enter, leave, stays_on, AllStayOn, seat,
  sockets_of, limit_at,
}
use tyo_mq.Limits.Connections.Exact.{run-IsExact, enter_limit}
use tyo_mq.Limits.Idle.{take_after_idle}

-- Two connections and three new realms are allowed.
abbrev chosen : Name → Setting
chosen max_connections_per_ip = number 2
chosen realms_per_hour_per_ip = number 3
chosen _ = undefined

abbrev settings : Option Config
settings = some (record { enabled = true; trust_proxy = false; settings = chosen; realms = [] })

abbrev host : List ℕ
host = codes "10.0.0.9"

abbrev at : ℕ → Reading
at now = record { now = now; raw = settings }

abbrev clock : ℕ → Clock
clock now = record {
  head = at now;
  on = at now;
  limit = at now;
  rate = at (suc now);
  taken = suc now;
}

-- The limits were switched off.
abbrev unlimited : ℕ → Clock
unlimited now =
    let off : Reading = record { now = now; raw = none } in
    record { head = off; on = off; limit = off; rate = off; taken = now }

-- A key that used up its three realms.
abbrev spent : Limits
spent = record (init 0) {
  buckets = (codes "realmrate:10.0.0.9", record { tokens = 0; updated_at = 5 }) ∷ [];
}

realm_denied :
    (realm_creation_allowed spent (at 6) (at 6) 6 host).1 ≡ denied realms_per_hour_per_ip 1200
unfolding realm_creation_allowed check_realms answer enabled value config is_fresh read_config
    value_in override take settle prune refilled seconds_to_wait Dict.lookup Dict.insert codes_eq
    nat_eq
realm_denied = refl

spent_bucket :
    Dict.lookup (codes "realmrate:10.0.0.9") spent.buckets
    ≡ some (record { tokens = 0; updated_at = 5 })
unfolding Dict.lookup codes_eq
spent_bucket = refl

spent-NodupKeys : NodupKeys spent.buckets
unfolding Dict.lookup
spent-NodupKeys = (refl, tt)

take_after_idle_example :
    ((take spent 600_006 (codes "realmrate:10.0.0.9") (some (per_hour 3)) 3 1).1 ≡ ok)
    × (Dict.lookup
          (codes "realmrate:10.0.0.9")
          (take spent 600_006 (codes "realmrate:10.0.0.9") (some (per_hour 3)) 3 1).0.buckets
        ≡ some (record { tokens = 3 * 3_600_000 - 1 * 3_600_000; updated_at = 600_006 }))
take_after_idle_example =
    take_after_idle spent 600_006 (codes "realmrate:10.0.0.9") (per_hour 3) 3 1
      (record { tokens = 0; updated_at = 5 }) spent-NodupKeys spent_bucket (omega arith)
      (omega arith) (omega arith)

total-le_example :
    total (per_second 20) 60 (codes "msg:s1") (init 0) (mine 0 1 ∷ mine 0 80 ∷ mine 500 2 ∷ [])
      * 1000
    ≤ 60 * 1000 + (500 - 0) * 20
total-le_example =
    total-le (per_second 20) 60 (codes "msg:s1") (omega arith) 0 (init 0)
      (mine 0 1 ∷ mine 0 80 ∷ mine 500 2 ∷ []) tt (omega arith, (omega arith, (omega arith, tt)))

abbrev nobody : Server
nobody = record { limits = init 0; live = [] }

nobody-IsExact : IsExact nobody
unfolding sockets_of Dict.lookup
nobody-IsExact = (tt, λ ip. refl)

third_refused :
    (run nobody
      (connects (clock 1) host ∷ connects (clock 3) host ∷ connects (clock 5) host ∷ [])).live
    ≡ host ∷ host ∷ []
unfolding run enter seat connection_allowed check_rate count_if count_of enabled value config
    is_fresh read_config value_in override Dict.lookup Dict.insert codes_eq nat_eq
third_refused = refl

abbrev events : List Event
events = connects (clock 1) host ∷ connects (unlimited 2000) host ∷ disconnects host ∷ []

all_stay_on : AllStayOn nobody events
unfolding enter leave seat connection_allowed check_rate count_if count_of enabled value config
    is_fresh read_config value_in override stays_on Dict.lookup Dict.insert codes_eq nat_eq
all_stay_on = (refl, (refl, tt))

run-IsExact_example : IsExact (run nobody events)
run-IsExact_example = run-IsExact nobody events nobody-IsExact all_stay_on

switched_on : (enabled nobody.limits 1 settings).1 ≡ true
unfolding enabled config is_fresh read_config
switched_on = refl

stays : stays_on nobody (clock 1) ≡ true
unfolding stays_on enabled config is_fresh read_config
stays = refl

two_allowed : limit_at nobody (clock 1) ≡ some 2
unfolding enabled value config is_fresh read_config value_in override codes_eq nat_eq
two_allowed = refl

enter_limit_example :
    sockets_of host (enter nobody (clock 1) host).live ≤ max 2 (sockets_of host nobody.live)
unfolding codes_eq
enter_limit_example =
    enter_limit nobody (clock 1) host 2 nobody-IsExact switched_on stays two_allowed
