-- ===== src/NonceCache.antt =====
-- `NonceCache` of lib/nonce-cache.js: replay protection for signed manager proofs.
-- A call reads the clock several times; each reading is an argument here, in the order in which the
-- code takes them.
pub mod Replay
use tyo_mq.Prelude.{
  ℕ, ◌+◌, ◌*◌, ◌/◌, min, max, String, Bool, true, false, Option, none, some, [], length, leb, ltb,
  not, or_default, if◌then◌else◌, string_eq,
}
use tyo_mq.Prelude.Dict
use tyo_mq.Prelude.Dict.{Dict}

pub record NonceCache : Type 0 where
  pub max_age_ms : ℕ
  pub retain_ms : ℕ
  pub entries : Dict String ℕ
  pub last_prune : ℕ
  pub prune_every_ms : ℕ

-- The constructor, from `options.maxAgeMs` and one reading of the clock.
unfoldable pub init : Option ℕ → ℕ → NonceCache
init max_age now =
    let age = or_default max_age (5 * 60 * 1000) in
    record {
      max_age_ms = age;
      retain_ms = 2 * age;
      entries = [];
      last_prune = now;
      prune_every_ms = min (30 * 1000) (max 1 (2 * age / 4));
    }

-- `insertedAt <= now - retainMs` on integers, with the subtraction moved to the other side.
is_expired : NonceCache → ℕ → ℕ → Bool
is_expired c now inserted_at = leb (inserted_at + c.retain_ms) now

pub prune : NonceCache → ℕ → NonceCache
unfolding is_expired
prune c now = record c {
  entries = Dict.retain (λ _ inserted_at. not (is_expired c now inserted_at)) c.entries;
  last_prune = now;
}

-- `t` is the reading of the test, `u` that of the prune.
pub maybe_prune : NonceCache → ℕ → ℕ → NonceCache
unfolding prune
maybe_prune c t u = if leb (c.last_prune + c.prune_every_ms) t then prune c u else c

-- The answer at the reading `v`, from what `entries.get(nonce)` found.
is_remembered : NonceCache → Option ℕ → ℕ → Bool
is_remembered c none v = false
is_remembered c (some inserted_at) v = ltb v (inserted_at + c.retain_ms)

unfoldable pub has : NonceCache → String → ℕ → ℕ → ℕ → NonceCache × Bool
unfolding maybe_prune is_remembered
has c nonce t u v =
    let c' = maybe_prune c t u in (c', is_remembered c' (Dict.lookup nonce c'.entries) v)

unfoldable pub add : NonceCache → String → ℕ → ℕ → ℕ → NonceCache
unfolding maybe_prune
add c nonce t u v =
    let c' = maybe_prune c t u in record c' { entries = Dict.insert nonce v c'.entries }

unfoldable pub size : NonceCache → ℕ → NonceCache × ℕ
unfolding prune
size c u = let c' = prune c u in (c', length c'.entries)
