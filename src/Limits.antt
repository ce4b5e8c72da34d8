-- ===== src/Limits.antt =====
-- lib/limits.js: token buckets, connection counts and the checks that use them.
-- A rate is an amount in a period of so many milliseconds, and the tokens of a bucket are counted in
-- fractions of one over the period, so that nothing is rounded. Addresses, socket ids and realms are
-- texts; the empty one stands for a missing one. The clock does not go back.
pub mod Checks
pub mod Admitted
pub mod Quota
pub mod Connections
pub mod Idle
use tyo_mq.Prelude.{
  ℕ, suc, ◌+◌, ◌-◌, ◌*◌, ◌/◌, min, max, Bool, true, false, Option, none, some, List, [], ◌∷◌, ◌++◌,
  ◌&&◌, ◌||◌, not, leb, ltb, if◌then◌else◌, ◌==◌, codes_eq, nat_eq,
}
use tyo_mq.Prelude.Dict
use tyo_mq.Prelude.Dict.{Dict}
use tyo_mq.Prelude.Text.{codes}

pub data Name : Type 0 where
  messages_per_second message_burst bytes_per_second bytes_burst : Name
  max_connections_per_ip connections_per_minute_per_ip realms_per_hour_per_ip : Name
  max_queued_per_recipient max_queued_per_realm : Name

-- A value of the settings: missing, a positive number, or what `value` takes for no limit.
pub data Setting : Type 0 where
  undefined no_limit : Setting
  number : ℕ → Setting

pub record Config : Type 0 where
  pub enabled : Bool
  pub trust_proxy : Bool
  pub settings : Name → Setting
  pub realms : Dict (List ℕ) (Name → Setting)

pub record Bucket : Type 0 where
  pub tokens : ℕ
  pub updated_at : ℕ

-- `_configCache`: null, false, or the settings.
pub data Cache : Type 0 where
  nothing off : Cache
  cached : Config → Cache

pub record Limits : Type 0 where
  pub config_cache : Cache
  pub config_cache_at : ℕ
  pub buckets : Dict (List ℕ) Bucket
  pub last_prune_at : ℕ
  pub connections : Dict (List ℕ) ℕ

abbrev pub config_cache_ms : ℕ
config_cache_ms = 1000

abbrev pub bucket_idle_ms : ℕ
bucket_idle_ms = 10 * 60 * 1000

abbrev pub prune_interval_ms : ℕ
prune_interval_ms = 60 * 1000

-- `new Limits` at the time `now`
abbrev pub init : ℕ → Limits
init now = record {
  config_cache = nothing;
  config_cache_at = 0;
  buckets = [];
  last_prune_at = now;
  connections = [];
}

-- A fresh reading of the settings.
unfoldable pub read_config : Option Config → Cache
read_config none = off
read_config (some raw) = if raw.enabled then cached raw else off

unfoldable pub is_fresh : Limits → ℕ → Bool
is_fresh s now = elim s.config_cache [
  | nothing ↦ false
  | _ ↦ ltb (now - s.config_cache_at) config_cache_ms
]

abbrev pub active : Cache → Option Config
active nothing = none
active off = none
active (cached c) = some c

-- `_config`. `raw` is what the settings give at this time.
unfoldable pub config : Limits → ℕ → Option Config → Limits × Option Config
config s now raw = if is_fresh s now then (s, active s.config_cache) else (
  record s { config_cache = read_config raw; config_cache_at = now },
  active (read_config raw),
)

-- DEFAULTS
abbrev pub default_of : Name → Setting
default_of max_queued_per_recipient = number 1000
default_of _ = undefined

abbrev pub or_else : Setting → Setting → Setting
or_else undefined t = t
or_else no_limit t = no_limit
or_else (number n) t = number n

-- The value in force of a realm, before the defaults.
unfoldable pub override : Config → List ℕ → Name → Setting
override c realm name = if realm == [] then c.settings name else elim (Dict.lookup realm c.realms) [
  | none ↦ c.settings name
  | some own ↦ or_else (own name) (c.settings name)
]

-- `Number.isFinite(raw) && raw > 0 ? raw : Infinity`, where `none` is Infinity
abbrev pub as_limit : Setting → Option ℕ
as_limit undefined = none
as_limit no_limit = none
as_limit (number n) = if n == 0 then none else some n

-- `value`, of the settings in force
unfoldable pub value_in : Option Config → List ℕ → Name → Option ℕ
value_in none realm name = none
value_in (some c) realm name = as_limit (or_else (override c realm name) (default_of name))

-- `value`
unfoldable pub value : Limits → ℕ → Option Config → List ℕ → Name → Limits × Option ℕ
value s now raw realm name = let (s', c) = config s now raw in (s', value_in c realm name)

-- `enabled`
unfoldable pub enabled : Limits → ℕ → Option Config → Limits × Bool
enabled s now raw = let (s', c) = config s now raw in (s', elim c [ none ↦ false | some _ ↦ true ])

-- `trustProxy`
unfoldable pub trusts_proxy : Limits → ℕ → Option Config → Limits × Bool
trusts_proxy s now raw =
    let (s', c) = config s now raw in (s', elim c [ none ↦ false | some on ↦ on.trust_proxy ])

abbrev pub is_in_use : ℕ → List ℕ → Bucket → Bool
is_in_use now key b = not (ltb bucket_idle_ms (now - b.updated_at))

-- `_prune`
unfoldable pub prune : Limits → ℕ → Limits
prune s now =
    if ltb (now - s.last_prune_at) prune_interval_ms
    then s
    else record s { last_prune_at = now; buckets = Dict.retain (is_in_use now) s.buckets }

pub record Rate : Type 0 where
  pub amount : ℕ
  pub period : ℕ

pub data Verdict : Type 0 where
  ok : Verdict
  retry_after : ℕ → Verdict

-- The tokens of the bucket at the time `now`, or of a new one.
unfoldable pub refilled : Rate → ℕ → ℕ → Option Bucket → ℕ
refilled rate burst now none = burst * rate.period
refilled rate burst now (some b) =
    min (burst * rate.period) (b.tokens + (now - b.updated_at) * rate.amount)

-- `Math.max(1, Math.ceil((cost - tokens) / ratePerSec))`
unfoldable pub seconds_to_wait : Rate → ℕ → ℕ → ℕ
seconds_to_wait rate cost tokens =
    let step = 1000 * rate.amount in max 1 ((cost * rate.period - tokens + (step - 1)) / step)

-- The end of `_take`, for a bucket that has so many tokens.
unfoldable pub settle : Limits → ℕ → List ℕ → Rate → ℕ → ℕ → Limits × Verdict
settle s now key rate cost tokens =
    let left = λ (t : ℕ). record s {
      buckets = Dict.insert key (record { tokens = t; updated_at = now }) s.buckets;
    } in
    if leb (cost * rate.period) tokens
    then (left (tokens - cost * rate.period), ok)
    else (left tokens, retry_after (seconds_to_wait rate cost tokens))

-- `_take`; no rate stands for an infinite one
unfoldable pub take : Limits → ℕ → List ℕ → Option Rate → ℕ → ℕ → Limits × Verdict
take s now key none burst cost = (s, ok)
take s now key (some rate) burst cost =
    let s' = prune s now in
    settle s' now key rate cost (refilled rate burst now (Dict.lookup key s'.buckets))
