-- ===== src/TokenRegistry/Coalesce.antt =====
-- The gate for wakes of `TokenRegistry` in lib/push.js: coalesceOk and resetCoalesce.
use tyo_mq.Prelude.{
  ℕ, ◌+◌, String, Bool, true, false, Option, none, some, ltb, if◌then◌else◌, string_eq, or_default,
}
use tyo_mq.Prelude.Dict
use tyo_mq.Prelude.Dict.{Dict}
use tyo_mq.TokenRegistry.{TokenRegistry, entries_of}

unfoldable pub is_recent : Option ℕ → ℕ → ℕ → Bool
is_recent none now window = false
is_recent (some last) now window = ltb now (last + window)

abbrev pub wake_map : TokenRegistry → String → Dict String ℕ
wake_map r realm = entries_of (Dict.lookup realm r.last_wake)

-- `coalesceOk(realm, identity, now, windowMs)`
unfoldable pub coalesce_ok :
    TokenRegistry → String → String → Option ℕ → Option ℕ → ℕ → TokenRegistry × Bool
unfolding is_recent
coalesce_ok r realm identity given_now given_window clock =
    let now = or_default given_now clock in
    let window = or_default given_window r.coalesce_window_ms in
    if is_recent (Dict.lookup identity (wake_map r realm)) now window then (r, false) else (
      record r {
        last_wake = Dict.insert realm (Dict.insert identity now (wake_map r realm)) r.last_wake;
      },
      true,
    )

-- `resetCoalesce(realm, identity)`
unfoldable pub reset_coalesce : TokenRegistry → String → String → TokenRegistry
reset_coalesce r realm identity = record r {
  last_wake = Dict.insert realm (Dict.erase identity (wake_map r realm)) r.last_wake;
}
