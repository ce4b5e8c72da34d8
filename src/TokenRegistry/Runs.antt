-- ===== src/TokenRegistry/Runs.antt =====
-- The cap holds after every history.
use tyo_mq.Prelude.{
  ℕ, ◌+◌, ◌≤◌, String, true, Option, none, some, List, [], ◌∷◌, ◌≡◌, refl, inl, inr, length, leb,
  ltb, not, filter, drop, length-filter-le, string_eq, or_default, arith, Bool-cases, Option-cases,
  ◌&&◌,
}
use tyo_mq.Prelude.Dict
use tyo_mq.Prelude.Dict.{Dict, AllEntries, insert-AllEntries, erase-AllEntries, lookup-AllEntries}
use tyo_mq.TokenRegistry.{
  Endpoint, Given, TokenRegistry, list_of, identity_map, touch_map, sweep_expired, surplus, place,
  cap, register, forget, unregister, mark_first, mark_list, mark_ok, list, same_endpoint,
}
use tyo_mq.TokenRegistry.Coalesce.{coalesce_ok, reset_coalesce, is_recent, wake_map}
use tyo_mq.TokenRegistry.Restore.{Row, Options, hydrate_row, hydrate, empty, init}
use tyo_mq.TokenRegistry.Calls.{
  Call, register_call, unregister_call, mark_ok_call, coalesce_call, reset_call, step, run,
}
use tyo_mq.TokenRegistry.Bounds.{
  fits, Fits, IsBounded, insert-IsBounded, sweep_identities-Fits, cap_identities-Fits,
  length-place-le, length-surplus-le,
}

length-mark_first :
    (transport token : String) (now : ℕ) (es : List Endpoint)
    → length (mark_first transport token now es) ≡ length es
unfolding mark_first
length-mark_first transport token now [] = refl
length-mark_first transport token now (e ∷ es) =
    ground (arith, length-mark_first transport token now es)

module _ (most : ℕ) where
  -- The registry has this cap, and its lists are within it.
  abbrev Keeps : TokenRegistry → Type 0
  Keeps r = (r.max_per_identity ≡ most) × IsBounded most r.by_realm

  length-list_of-le :
      (identity : String) (m : Dict String (List Endpoint))
      → Fits most m
      → length (list_of (Dict.lookup identity m)) ≤ most
  length-list_of-le identity m f = elim (Option-cases (Dict.lookup identity m)) [
    | inl e ↦ rw e (omega arith)
    | inr (es, e) ↦ rw e (ground (arith, lookup-AllEntries (fits most) identity es m f e))
  ]

  sweep_expired-Keeps :
      (r : TokenRegistry) (realm : String) (now : ℕ) → Keeps r → Keeps (sweep_expired r realm now)
  unfolding sweep_expired
  sweep_expired-Keeps r realm now (e, b) = elim (Bool-cases (leb r.ttl_ms 0)) [
    | inl h ↦ rw h (e, b)
    | inr h ↦ rw h (
      e,
      insert-IsBounded most realm _ r.by_realm
          (sweep_identities-Fits most r.ttl_ms now (touch_map r realm) (identity_map r realm)
            (b realm))
          b,
    )
  ]

  cap-Fits :
      (r : TokenRegistry) (realm identity : String) (m : Dict String (List Endpoint))
      (tm : Dict String ℕ)
      → Fits most m
      → Fits most (cap r realm identity m tm).0
  unfolding cap
  cap-Fits r realm identity m tm f = elim (Bool-cases (leb r.max_identities 0)) [
    | inl h ↦ rw h f
    | inr h ↦ rw h (cap_identities-Fits most realm identity r.max_identities m tm f)
  ]

  register-Keeps :
      (r : TokenRegistry) (realm identity : String) (ep : Given) (clock : ℕ)
      → Keeps r
      → Keeps (register r realm identity ep clock).0
  unfolding register
  register-Keeps r realm identity ep clock k =
      let now = or_default ep.now clock in
      let r' = sweep_expired r realm now in
      let (e, b) = sweep_expired-Keeps r realm now k in
      let es = list_of (Dict.lookup identity (identity_map r' realm)) in
      let le = length-list_of-le identity (identity_map r' realm) (b realm) in
      let placed : length (place r'.max_per_identity ep now es).1 ≤ most =
        rw e (length-place-le most ep now es le) in
      let m = Dict.insert identity (place r.max_per_identity ep now es).1 (identity_map r' realm) in
      (
        e,
        insert-IsBounded most realm _ r'.by_realm
            (cap-Fits r realm identity m _ (
              insert-AllEntries (fits most) identity _ (identity_map r' realm)
                (ground (arith, placed, e, k.0)) (b realm)))
            b,
      )

  forget-Keeps :
      (r : TokenRegistry) (realm identity : String) (ep : Given) (es : List Endpoint)
      → length es ≤ most
      → Keeps r
      → Keeps (forget r realm identity ep (some es)).0
  unfolding forget
  forget-Keeps r realm identity ep es le (e, b) =
      let keep = λ (x : Endpoint). not (same_endpoint ep.transport ep.token x) in
      let erased = erase-AllEntries (fits most) identity (identity_map r realm) (b realm) in
      let fit : leb (length (filter keep es)) most ≡ true =
        ground (arith, le, length-filter-le keep es) in
      let kept =
        insert-AllEntries (fits most) identity (filter keep es) (identity_map r realm) fit
          (b realm) in
      elim (Bool-cases (leb (length (filter keep es)) 0)) [
        | inl h ↦ rw h (e, insert-IsBounded most realm _ r.by_realm erased b)
        | inr h ↦ rw h (e, insert-IsBounded most realm _ r.by_realm kept b)
      ]

  unregister-Keeps :
      (r : TokenRegistry) (realm identity : String) (ep : Given)
      → Keeps r
      → Keeps (unregister r realm identity ep).0
  unfolding unregister
  unregister-Keeps r realm identity ep (e, b) =
      elim (Option-cases (Dict.lookup identity (identity_map r realm))) [
        | inl h ↦ rw h (unfold forget in (e, b))
        | inr (es, h) ↦
            let le : length es ≤ most = ground (
              arith,
              lookup-AllEntries (fits most) identity es (identity_map r realm) (b realm) h,
            ) in
            rw h (forget-Keeps r realm identity ep es le (e, b))
      ]

  mark_ok-Keeps :
      (r : TokenRegistry) (realm identity : String) (ep : Given) (now : Option ℕ) (clock : ℕ)
      → Keeps r
      → Keeps (mark_ok r realm identity ep now clock)
  unfolding mark_ok mark_list
  mark_ok-Keeps r realm identity ep now clock (e, b) =
      elim (Option-cases (Dict.lookup identity (identity_map r realm))) [
        | inl h ↦ rw h (e, b)
        | inr (es, h) ↦
            let time = or_default now clock in
            let le = lookup-AllEntries (fits most) identity es (identity_map r realm) (b realm) h in
            let fit : leb (length (mark_first ep.transport ep.token time es)) most ≡ true =
              ground (arith, le, length-mark_first ep.transport ep.token time es) in
            rw h (
              e,
              insert-IsBounded most realm _ r.by_realm
                  (insert-AllEntries (fits most) identity _ (identity_map r realm) fit (b realm)) b,
            )
      ]

  coalesce_ok-Keeps :
      (r : TokenRegistry) (realm identity : String) (now window : Option ℕ) (clock : ℕ)
      → Keeps r
      → Keeps (coalesce_ok r realm identity now window clock).0
  unfolding coalesce_ok
  coalesce_ok-Keeps r realm identity now window clock (e, b) =
      elim (Bool-cases (
        is_recent (Dict.lookup identity (wake_map r realm)) (or_default now clock)
          (or_default window r.coalesce_window_ms))) [ inl h ↦ rw h (e, b) | inr h ↦ rw h (e, b) ]

  step-Keeps : (r : TokenRegistry) (c : Call) → Keeps r → Keeps (step r c)
  unfolding step reset_coalesce
  step-Keeps r (register_call realm identity ep clock) k =
      register-Keeps r realm identity ep clock k
  step-Keeps r (unregister_call realm identity ep) k = unregister-Keeps r realm identity ep k
  step-Keeps r (mark_ok_call realm identity ep now clock) k =
      mark_ok-Keeps r realm identity ep now clock k
  step-Keeps r (coalesce_call realm identity now window clock) k =
      coalesce_ok-Keeps r realm identity now window clock k
  step-Keeps r (reset_call realm identity) k = k

  run-Keeps : (r : TokenRegistry) (cs : List Call) → Keeps r → Keeps (run r cs)
  unfolding run
  run-Keeps r [] k = k
  run-Keeps r (c ∷ cs) k = run-Keeps (step r c) cs (step-Keeps r c k)

  surplus-fits :
      (n : ℕ) (es : List Endpoint) → n ≡ most → leb (length (drop (surplus n es) es)) most ≡ true
  surplus-fits n es e = ground (arith, e, length-surplus-le n es)

  hydrate_row-Keeps :
      (r : TokenRegistry) (now : ℕ) (row : Row) → Keeps r → Keeps (hydrate_row r now row)
  unfolding hydrate_row
  hydrate_row-Keeps r now row (e, b) =
      elim (Bool-cases (ltb 0 r.ttl_ms && ltb (row.added_at + r.ttl_ms) now)) [
        | inl h ↦ rw h (e, b)
        | inr h ↦ rw h (
          e,
          insert-IsBounded most row.realm _ r.by_realm
              (insert-AllEntries (fits most) row.identity _ (identity_map r row.realm)
                (surplus-fits r.max_per_identity _ e) (b row.realm))
              b,
        )
      ]

  hydrate-Keeps :
      (r : TokenRegistry) (now : ℕ) (rows : List Row) → Keeps r → Keeps (hydrate r now rows)
  unfolding hydrate
  hydrate-Keeps r now [] k = k
  hydrate-Keeps r now (row ∷ rows) k =
      hydrate-Keeps (hydrate_row r now row) now rows (hydrate_row-Keeps r now row k)

module _ (opts : Options) where
  most : ℕ
  most = or_default opts.max_per_identity 10

  init-Keeps : (rows : Option (List Row)) (now : ℕ) → Keeps most (init opts rows now).0
  unfolding init most Dict.lookup
  init-Keeps none now = (refl, λ realm. tt)
  init-Keeps (some rows) now = hydrate-Keeps most (empty opts true) now rows (refl, λ realm. tt)

  -- In every registry, restored from whatever rows and after whatever calls, an identity has at most as many endpoints
  -- as the option says, or 10.
  pub list-run-le :
      (rows : Option (List Row)) (now : ℕ) (cs : List Call) (realm identity : String)
      → length (list (run (init opts rows now).0 cs) realm identity)
        ≤ or_default opts.max_per_identity 10
  unfolding most
  list-run-le rows now cs realm identity =
      length-list_of-le most identity _
        ((run-Keeps most (init opts rows now).0 cs (init-Keeps rows now)).1 realm)
