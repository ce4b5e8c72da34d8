-- ===== src/TokenRegistry.antt =====
-- `TokenRegistry` of lib/push.js: the push endpoints of each identity, and the gate for wakes.
-- An option of an endpoint is left out, given as null, or given; a time of 0 is a missing one, as it is for
-- `||`. What the durable store is told is listed in the order of the calls. An endpoint that a call hands out is
-- a copy here; the code shares it with the list.
pub mod Coalesce
pub mod Restore
pub mod Calls
pub mod Bounds
pub mod Runs
pub mod Register
pub mod Wakes
use tyo_mq.Prelude.{
  ℕ, zero, suc, ◌+◌, ◌-◌, ◌*◌, String, Bool, true, false, Option, none, some, List, [], ◌∷◌, ◌++◌,
  ◌&&◌, length, leb, ltb, not, filter, if◌then◌else◌, ◌==◌, string_eq, or_default, drop, take, map,
}
use tyo_mq.Prelude.Dict
use tyo_mq.Prelude.Dict.{Dict}

pub record Endpoint : Type 0 where
  pub transport : String
  pub token : String
  pub app_id : Option String
  pub env : Option String
  pub min_priority : Option ℕ
  pub added_at : ℕ
  pub last_ok : Option ℕ

-- The `ep` of a call.
pub record Given : Type 0 where
  pub transport : String
  pub token : String
  pub app_id : Option (Option String)
  pub env : Option (Option String)
  pub min_priority : Option (Option ℕ)
  pub now : Option ℕ

pub data StoreCall : Type 0 where
  put : String → String → Endpoint → StoreCall
  del : String → String → String → String → StoreCall
  prune_older_than : ℕ → StoreCall

pub record TokenRegistry : Type 0 where
  pub max_per_identity : ℕ
  pub coalesce_window_ms : ℕ
  pub max_identities : ℕ
  pub ttl_ms : ℕ
  pub has_store : Bool
  pub by_realm : Dict String (Dict String (List Endpoint))
  pub last_wake : Dict String (Dict String ℕ)
  pub touched : Dict String (Dict String ℕ)

-- What a realm's map holds; a missing map is as good as an empty one.
abbrev pub entries_of {ℓ} : {V : Type ℓ} → Option (Dict String V) → Dict String V
entries_of none = []
entries_of (some d) = d

abbrev pub list_of : Option (List Endpoint) → List Endpoint
list_of none = []
list_of (some es) = es

abbrev identity_map : TokenRegistry → String → Dict String (List Endpoint)
identity_map r realm = entries_of (Dict.lookup realm r.by_realm)

abbrev touch_map : TokenRegistry → String → Dict String ℕ
touch_map r realm = entries_of (Dict.lookup realm r.touched)

-- `if (this.store)`
stored : TokenRegistry → List StoreCall → List StoreCall
stored r calls = if r.has_store then calls else []

-- `value !== undefined ? value : old`
given : {A : Type 0} → Option (Option A) → Option A → Option A
given none old = old
given (some value) old = value

abbrev pub same_endpoint : String → String → Endpoint → Bool
same_endpoint transport token e = e.transport == transport && e.token == token

-- The loop over the touched identities in `_sweepExpired`.
unfoldable pub sweep_identities :
    ℕ → ℕ → Dict String ℕ → Dict String (List Endpoint) → Dict String (List Endpoint)
sweep_identities ttl now [] m = m
sweep_identities ttl now ((identity, ts) ∷ tm) m =
    sweep_identities ttl now tm (if ltb (ts + ttl) now then Dict.erase identity m else m)

-- `_sweepExpired(realm, now)`
unfoldable pub sweep_expired : TokenRegistry → String → ℕ → TokenRegistry
unfolding sweep_identities
sweep_expired r realm now = if leb r.ttl_ms 0 then r else record r {
  by_realm =
      Dict.insert realm (sweep_identities r.ttl_ms now (touch_map r realm) (identity_map r realm))
        r.by_realm;
  touched =
      Dict.insert realm
        (Dict.retain (λ identity ts. not (ltb (ts + r.ttl_ms) now)) (touch_map r realm)) r.touched;
}

refresh : Given → ℕ → Endpoint → Endpoint
unfolding given
refresh ep now e = record e {
  added_at = now;
  app_id = given ep.app_id e.app_id;
  env = given ep.env e.env;
  min_priority = given ep.min_priority e.min_priority;
}

new_endpoint : Given → ℕ → Endpoint
unfolding given
new_endpoint ep now = record {
  transport = ep.transport;
  token = ep.token;
  app_id = given ep.app_id none;
  env = given ep.env none;
  min_priority = given ep.min_priority none;
  added_at = now;
  last_ok = none;
}

-- The first endpoint with the transport and token is changed in place; with none, there is no result.
update_first :
    String → String → (Endpoint → Endpoint) → List Endpoint → Option (Endpoint × List Endpoint)
update_first transport token f [] = none
update_first transport token f (e ∷ es) =
    let rest = update_first transport token f es in
    if same_endpoint transport token e
    then some (f e, f e ∷ es)
    else elim rest [ none ↦ none | some (found, es') ↦ some (found, e ∷ es') ]

-- The eviction loop: shifts until the list is no longer than the cap.
unfoldable pub surplus : ℕ → List Endpoint → ℕ
surplus most es = length es - most

-- The endpoint, the list with it, and the endpoints that had to go.
place_in :
    ℕ
    → Given
    → ℕ
    → List Endpoint
    → Option (Endpoint × List Endpoint)
    → Endpoint × List Endpoint × List Endpoint
unfolding new_endpoint surplus
place_in most ep now es (some (e, es')) = (e, es', [])
place_in most ep now es none =
    let all = es ++ (new_endpoint ep now ∷ []) in
    (new_endpoint ep now, drop (surplus most all) all, take (surplus most all) all)

unfoldable pub place : ℕ → Given → ℕ → List Endpoint → Endpoint × List Endpoint × List Endpoint
unfolding refresh update_first place_in
place most ep now es =
    place_in most ep now es (update_first ep.transport ep.token (refresh ep now) es)

del_all : String → String → List Endpoint → List StoreCall
del_all realm identity es = map (λ e. del realm identity e.transport e.token) es

-- The loop that evicts the identities touched longest ago; it leaves the one that registers.
unfoldable pub cap_identities :
    String
    → String
    → ℕ
    → Dict String (List Endpoint)
    → Dict String ℕ
    → Dict String (List Endpoint) × Dict String ℕ × List StoreCall
unfolding del_all
cap_identities realm identity most m [] = (m, [], [])
cap_identities realm identity most m ((oldest, ts) ∷ tm) =
    let (m', tm', calls) = cap_identities realm identity most (Dict.erase oldest m) tm in
    if leb (length m) most
    then (m, (oldest, ts) ∷ tm, [])
    else if oldest == identity
    then (m, (oldest, ts) ∷ tm, [])
    else (m', tm', del_all realm oldest (list_of (Dict.lookup oldest m)) ++ calls)

cap :
    TokenRegistry
    → String
    → String
    → Dict String (List Endpoint)
    → Dict String ℕ
    → Dict String (List Endpoint) × Dict String ℕ × List StoreCall
unfolding cap_identities
cap r realm identity m tm =
    if leb r.max_identities 0
    then (m, tm, [])
    else cap_identities realm identity r.max_identities m tm

-- `register(realm, identity, ep)`; `clock` is the reading of Date.now().
unfoldable pub register :
    TokenRegistry → String → String → Given → ℕ → TokenRegistry × Endpoint × List StoreCall
unfolding sweep_expired place cap stored del_all
register r realm identity ep clock =
    let now = or_default ep.now clock in
    let r' = sweep_expired r realm now in
    let (e, es, evicted) =
      place r.max_per_identity ep now (list_of (Dict.lookup identity (identity_map r' realm))) in
    let m = Dict.insert identity es (identity_map r' realm) in
    let tm = Dict.erase identity (touch_map r' realm) ++ ((identity, now) ∷ []) in
    let (m', tm', calls) = cap r realm identity m tm in
    (
      record r' {
        by_realm = Dict.insert realm m' r'.by_realm;
        touched = Dict.insert realm tm' r'.touched;
      },
      e,
      stored r (del_all realm identity evicted ++ (calls ++ (put realm identity e ∷ []))),
    )

-- `unregister(realm, identity, ep)`, and `prune`, which is the same.
forget :
    TokenRegistry
    → String
    → String
    → Given
    → Option (List Endpoint)
    → TokenRegistry × ℕ × List StoreCall
unfolding stored
forget r realm identity ep none = (r, 0, [])
forget r realm identity ep (some es) =
    let kept = filter (λ e. not (same_endpoint ep.transport ep.token e)) es in
    let calls = stored r (del realm identity ep.transport ep.token ∷ []) in
    if leb (length kept) 0
    then (
      record r {
        by_realm = Dict.insert realm (Dict.erase identity (identity_map r realm)) r.by_realm;
        touched = Dict.insert realm (Dict.erase identity (touch_map r realm)) r.touched;
      },
      length es - length kept,
      calls,
    )
    else (
      record r {
        by_realm = Dict.insert realm (Dict.insert identity kept (identity_map r realm)) r.by_realm;
      },
      length es - length kept,
      calls,
    )

unfoldable pub unregister :
    TokenRegistry → String → String → Given → TokenRegistry × ℕ × List StoreCall
unfolding forget
unregister r realm identity ep =
    forget r realm identity ep (Dict.lookup identity (identity_map r realm))

-- `markOk(realm, identity, ep, now)`
mark_first : String → String → ℕ → List Endpoint → List Endpoint
mark_first transport token now [] = []
mark_first transport token now (e ∷ es) =
    if same_endpoint transport token e
    then record e { last_ok = some now } ∷ es
    else e ∷ mark_first transport token now es

mark_list : TokenRegistry → String → String → Given → ℕ → Option (List Endpoint) → TokenRegistry
unfolding mark_first
mark_list r realm identity ep now none = r
mark_list r realm identity ep now (some es) = record r {
  by_realm =
      Dict.insert realm
        (Dict.insert identity (mark_first ep.transport ep.token now es) (identity_map r realm))
        r.by_realm;
}

unfoldable pub mark_ok : TokenRegistry → String → String → Given → Option ℕ → ℕ → TokenRegistry
unfolding mark_list
mark_ok r realm identity ep now clock =
    mark_list r realm identity ep (or_default now clock)
      (Dict.lookup identity (identity_map r realm))

-- `list(realm, identity)` and `count(realm, identity)`
abbrev pub list : TokenRegistry → String → String → List Endpoint
list r realm identity = list_of (Dict.lookup identity (identity_map r realm))

abbrev pub count : TokenRegistry → String → String → ℕ
count r realm identity = length (list r realm identity)
