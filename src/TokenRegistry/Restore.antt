-- ===== src/TokenRegistry/Restore.antt =====
-- The construction of `TokenRegistry` in lib/push.js, with the endpoints that the durable store has kept.
use tyo_mq.Prelude.{
  ℕ, ◌+◌, ◌-◌, ◌*◌, String, Bool, true, false, Option, none, some, List, [], ◌∷◌, ◌++◌, ◌&&◌, leb,
  ltb, if◌then◌else◌, string_eq, or_default, drop,
}
use tyo_mq.Prelude.Dict
use tyo_mq.Prelude.Dict.{Dict}
use tyo_mq.TokenRegistry.{
  TokenRegistry, StoreCall, prune_older_than, identity_map, touch_map, surplus, list,
}

-- A row of the durable store.
pub record Row : Type 0 where
  pub realm : String
  pub identity : String
  pub transport : String
  pub token : String
  pub app_id : Option String
  pub env : Option String
  pub min_priority : Option ℕ
  pub added_at : ℕ

-- One row of `_hydrate`. A row that the idle time has passed is skipped; without an idle time none is.
unfoldable pub hydrate_row : TokenRegistry → ℕ → Row → TokenRegistry
unfolding surplus
hydrate_row r now row =
    if ltb 0 r.ttl_ms && ltb (row.added_at + r.ttl_ms) now
    then r
    else let all =
        list r row.realm row.identity
        ++ (record {
          transport = row.transport;
          token = row.token;
          app_id = row.app_id;
          env = row.env;
          min_priority = row.min_priority;
          added_at = row.added_at;
          last_ok = none;
        }
            ∷ []) in
      record r {
        by_realm =
            Dict.insert row.realm
              (Dict.insert row.identity (drop (surplus r.max_per_identity all) all)
                (identity_map r row.realm))
              r.by_realm;
        touched =
            Dict.insert row.realm
              (Dict.erase row.identity (touch_map r row.realm)
                ++ ((row.identity, (if leb row.added_at 0 then now else row.added_at)) ∷ []))
              r.touched;
      }

unfoldable pub hydrate : TokenRegistry → ℕ → List Row → TokenRegistry
unfolding hydrate_row
hydrate r now [] = r
hydrate r now (row ∷ rows) = hydrate (hydrate_row r now row) now rows

pub record Options : Type 0 where
  pub max_per_identity : Option ℕ
  pub coalesce_window_ms : Option ℕ
  pub max_identities : Option ℕ
  pub ttl_ms : Option ℕ

abbrev pub empty : Options → Bool → TokenRegistry
empty opts has_store = record {
  max_per_identity = or_default opts.max_per_identity 10;
  coalesce_window_ms = or_default opts.coalesce_window_ms (10 * 1000);
  max_identities = or_default opts.max_identities 0;
  ttl_ms = or_default opts.ttl_ms 0;
  has_store = has_store;
  by_realm = [];
  last_wake = [];
  touched = [];
}

-- `new TokenRegistry(opts)`, with the rows of the durable store if there is one; the clock is past the idle time.
unfoldable pub init : Options → Option (List Row) → ℕ → TokenRegistry × List StoreCall
unfolding hydrate
init opts none now = (empty opts false, [])
init opts (some rows) now = (
  hydrate (empty opts true) now rows,
  (let ttl = (empty opts true).ttl_ms in
      if ltb 0 ttl && ltb ttl now then prune_older_than (now - ttl) ∷ [] else []),
)
