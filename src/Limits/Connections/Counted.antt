-- ===== src/Limits/Connections/Counted.antt =====
-- What a check of a connection does to the counts.
use tyo_mq.Prelude.{
  ℕ, suc, ◌≡◌, refl, ap, ◌∙◌, true, Option, none, some, List, [], codes_eq, nat_eq, arith,
  Bool-cases, inl, inr,
}
use tyo_mq.Prelude.Dict
use tyo_mq.Prelude.Dict.{
  Dict, NodupKeys, lookup-insert, lookup-erase, insert-NodupKeys, erase-NodupKeys,
}
use tyo_mq.Limits.{
  Name, max_connections_per_ip, connections_per_minute_per_ip, Config, Limits, Rate, Verdict, ok,
  retry_after, config, enabled, value, prune, settle, take,
}
use tyo_mq.Limits.Checks.{
  Clock, Answer, allowed, denied, address_of, count_of, or_zero, count_if, check_rate, reaches,
  connection_allowed,
}

pub config-connections :
    (s : Limits) (now : ℕ) (raw : Option Config) → (config s now raw).0.connections ≡ s.connections
unfolding config
config-connections s now raw = ground arith

pub enabled-connections :
    (s : Limits) (now : ℕ) (raw : Option Config) → (enabled s now raw).0.connections ≡ s.connections
unfolding enabled
enabled-connections s now raw = config-connections s now raw

prune-connections : (s : Limits) (now : ℕ) → (prune s now).connections ≡ s.connections
unfolding prune
prune-connections s now = ground arith

take-connections :
    (s : Limits) (now : ℕ) (key : List ℕ) (rate : Option Rate) (burst cost : ℕ)
    → (take s now key rate burst cost).0.connections ≡ s.connections
unfolding take settle
take-connections s now key none burst cost = refl
take-connections s now key (some rate) burst cost = ground (arith, prune-connections s now)

-- What a check of a connection does to the counts.
pub data Counted (s : Limits) (ip : List ℕ) (current : ℕ) : Limits × Answer → Type 0 where
  yes_counted :
      {s' : Limits}
      → s'.connections ≡ Dict.insert ip (suc current) s.connections
      → Counted s ip current (s', allowed)
  not_counted :
      {s' : Limits} {name : Name} {n : ℕ}
      → s'.connections ≡ s.connections
      → Counted s ip current (s', denied name n)

count_if-Counted :
    (s : Limits) (ip : List ℕ) (current : ℕ) (r : Limits × Verdict)
    → r.0.connections ≡ s.connections
    → Counted s ip current (count_if ip current r)
unfolding count_if
count_if-Counted s ip current (s', ok) e = yes_counted (ap (Dict.insert ip (suc current)) e)
count_if-Counted s ip current (s', retry_after n) e = not_counted e

check_rate-Counted :
    (s : Limits) (now : ℕ) (ip : List ℕ) (current : ℕ) (per : Option ℕ)
    → Counted s ip current (check_rate s now ip current per)
unfolding check_rate
check_rate-Counted s now ip current none = count_if-Counted s ip current (s, ok) refl
check_rate-Counted s now ip current (some per) =
    count_if-Counted s ip current _ (take-connections s now _ _ per 1)

pub Counted-same :
    (s t : Limits) (ip : List ℕ) (current : ℕ) (r : Limits × Answer)
    → t.connections ≡ s.connections
    → Counted t ip current r
    → Counted s ip current r
Counted-same s t ip current _ e (yes_counted c) =
    yes_counted (c ∙ ap (Dict.insert ip (suc current)) e)
Counted-same s t ip current _ e (not_counted c) = not_counted (c ∙ e)

pub connection_allowed-Counted :
    (s : Limits) (c : Clock) (ip : List ℕ)
    → (enabled s c.on.now c.on.raw).1 ≡ true
    → Counted s (address_of ip) (count_of s (address_of ip)) (connection_allowed s c ip)
unfolding connection_allowed count_of value enabled
connection_allowed-Counted s c ip on =
    let s1 = (enabled s c.on.now c.on.raw).0 in
    let s2 = (value s1 c.limit.now c.limit.raw [] max_connections_per_ip).0 in
    let limit = (value s1 c.limit.now c.limit.raw [] max_connections_per_ip).1 in
    let s3 = (value s2 c.rate.now c.rate.raw [] connections_per_minute_per_ip).0 in
    let per = (value s2 c.rate.now c.rate.raw [] connections_per_minute_per_ip).1 in
    let e1 : s1.connections ≡ s.connections = config-connections s c.on.now c.on.raw in
    let e2 : s2.connections ≡ s.connections = config-connections s1 c.limit.now c.limit.raw ∙ e1 in
    let e3 : s3.connections ≡ s.connections = config-connections s2 c.rate.now c.rate.raw ∙ e2 in
    let current = count_of s2 (address_of ip) in
    let same : current ≡ count_of s (address_of ip) =
      ap (λ d. or_zero (Dict.lookup (address_of ip) d)) e2 in
    rw (on, ← same)
      (elim (Bool-cases (reaches limit current)) [
        | inl full ↦ rw full (not_counted e2)
        | inr room ↦ rw room (
            Counted-same s s3 (address_of ip) current _ e3
              (check_rate-Counted s3 c.taken (address_of ip) current per))
      ])
