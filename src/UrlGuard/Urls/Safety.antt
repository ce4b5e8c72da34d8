-- ===== src/UrlGuard/Urls/Safety.antt =====
-- Which URLs the guard accepts, and which addresses a request can reach.
use tyo_mq.Prelude.{
  ℕ, ◌≤◌, ◌≡◌, ◌≢◌, ◌↔◌, ◌∙◌, refl, sym, ap, Option, none, some, List, [], ◌∷◌, length, arith, Bool,
  true, false, ◌==◌, nat_eq, codes_eq, AllTrue, ◌⊎◌,
}
use tyo_mq.Prelude.Text.{codes}
use tyo_mq.UrlGuard.Urls.Loop.{admits, AllAdmitted, judge_only, judge_if}
use tyo_mq.UrlGuard.Urls.{
  Address, Url, Network, Verdict, accepted, Reason, class_of, addresses_of, check_parsed, judge,
  judge_resolved, url_refusal, unless, check_url, is_safe_push_url, lookup_refuses, any_refused,
  guarded_lookup, strip_brackets, push_max_token_length,
}

-- Everything that the guard promises about an accepted URL.
pub record IsSafe (net : Network) (allow_local : Bool) (raw host : List ℕ) : Type 0 where
  pub url : Url
  pub addrs : List Address
  pub not_empty : length raw ≢ 0
  pub not_long : length raw ≤ push_max_token_length
  pub parsed : net.parse_url raw ≡ some url
  pub no_credentials : (url.username ≡ []) × (url.password ≡ [])
  pub scheme :
      (url.protocol ≡ codes "https:") ⊎ ((url.protocol ≡ codes "http:") × (allow_local ≡ true))
  pub same_host : strip_brackets url.hostname ≡ host
  pub has_host : host ≢ []
  pub resolved : addresses_of net host ≡ some addrs
  pub has_address : addrs ≢ []
  pub admitted :
      AllTrue (λ a. admits allow_local (url.protocol == codes "http:") (class_of net a)) addrs

unless_only :
    (early : Option Reason) (v : Verdict) (host : List ℕ)
    → unless early v ≡ accepted host
    → (early ≡ none) × (v ≡ accepted host)
unless_only none v host h = (refl, h)
unless_only (some reason) v host h = ground arith

module _ (net : Network) (allow_local : Bool) where
  url_refusal-none :
      (u : Url)
      → url_refusal allow_local u ≡ none
      → (u.username ≡ [])
        × (u.password ≡ [])
        × ((u.protocol ≡ codes "https:") ⊎ ((u.protocol ≡ codes "http:") × (allow_local ≡ true)))
        × (strip_brackets u.hostname ≢ [])
  unfolding url_refusal
  url_refusal-none u h = ground arith

  passes_guards :
      (u : Url)
      → (u.username ≡ []) × (u.password ≡ [])
      → (u.protocol ≡ codes "https:") ⊎ ((u.protocol ≡ codes "http:") × (allow_local ≡ true))
      → strip_brackets u.hostname ≢ []
      → url_refusal allow_local u ≡ none
  unfolding url_refusal
  passes_guards u bare scheme host = ground arith

  judge_resolved_only :
      (is_http : Bool) (host host' : List ℕ) (answer : Option (List Address))
      → judge_resolved net allow_local is_http host answer ≡ accepted host'
      → (addrs : List Address) × ((answer ≡ some addrs)
          × (judge net allow_local is_http host addrs ≡ accepted host'))
  unfolding judge_resolved
  judge_resolved_only is_http host host' none h = ground arith
  judge_resolved_only is_http host host' (some addrs) h = (addrs, (refl, h))

  check_url_only :
      (raw host : List ℕ) (u : Url)
      → length raw ≢ 0
      → length raw ≤ push_max_token_length
      → net.parse_url raw ≡ some u
      → check_url net allow_local u ≡ accepted host
      → IsSafe net allow_local raw host
  unfolding check_url
  check_url_only raw host u ne long parsed h =
      let is_http = u.protocol == codes "http:" in
      let bare = strip_brackets u.hostname in
      let (early, late) = unless_only (url_refusal allow_local u) _ host h in
      let passed = url_refusal-none u early in
      let (addrs, (resolved, judged)) =
        judge_resolved_only is_http bare host (addresses_of net bare) late in
      let (same, some_addr, all) = judge_only net allow_local is_http bare host addrs judged in
      record {
        url = u;
        addrs = addrs;
        not_empty = ne;
        not_long = long;
        parsed = parsed;
        no_credentials = (passed.0, passed.1);
        scheme = passed.2;
        same_host = same;
        has_host = λ e. passed.3 (same ∙ e);
        resolved = ap (addresses_of net) (sym same) ∙ resolved;
        has_address = some_addr;
        admitted = all;
      }

  is_safe_only :
      (raw host : List ℕ)
      → is_safe_push_url net allow_local (some raw) ≡ accepted host
      → (length raw ≢ 0)
        × (length raw ≤ push_max_token_length)
        × (check_parsed net allow_local (net.parse_url raw) ≡ accepted host)
  unfolding is_safe_push_url
  is_safe_only raw host h = ground arith

  check_parsed_only :
      (raw host : List ℕ) (parsed : Option Url)
      → length raw ≢ 0
      → length raw ≤ push_max_token_length
      → net.parse_url raw ≡ parsed
      → check_parsed net allow_local parsed ≡ accepted host
      → IsSafe net allow_local raw host
  unfolding check_parsed
  check_parsed_only raw host none ne long e h = ground arith
  check_parsed_only raw host (some u) ne long e h = check_url_only raw host u ne long e h

  check_url_if :
      (raw host : List ℕ) (safe : IsSafe net allow_local raw host)
      → check_url net allow_local safe.url ≡ accepted host
  unfolding check_url judge_resolved
  check_url_if raw host safe =
      let is_http = safe.url.protocol == codes "http:" in
      let bare : strip_brackets safe.url.hostname ≢ [] =
        λ e. safe.has_host (sym safe.same_host ∙ e) in
      let early = passes_guards safe.url safe.no_credentials safe.scheme bare in
      rw (early, safe.same_host, safe.resolved)
        (judge_if net allow_local is_http host safe.addrs safe.has_address safe.admitted)

  -- A text is accepted, with a host, exactly if it has 1 to 4096 characters, parses, has no credentials, https or, with
  -- the development flag, http as its scheme and that host, and the host has at least one address and
  -- all of its addresses are admitted.
  pub is_safe_push_url-IsSafe :
      (raw host : List ℕ)
      → is_safe_push_url net allow_local (some raw) ≡ accepted host
        ↔ IsSafe net allow_local raw host
  unfolding is_safe_push_url check_parsed
  is_safe_push_url-IsSafe raw host = (
    λ h.
        let (ne, long, checked) = is_safe_only raw host h in
        check_parsed_only raw host (net.parse_url raw) ne long refl checked,
    λ safe.
        let parsed = safe.parsed in
        let checked = check_url_if raw host safe in
        let ne = safe.not_empty in
        let long = safe.not_long in
        ground (arith, ap (check_parsed net allow_local) parsed ∙ checked),
  )

  any_refused-false :
      (addrs : List Address)
      → any_refused net allow_local addrs ≡ false ↔ AllAdmitted net allow_local false addrs
  unfolding any_refused lookup_refuses admits
  any_refused-false [] = ground arith
  any_refused-false (a ∷ addrs) = ground (arith, any_refused-false addrs)

  -- The lookup of the connection gives what the resolver gives, if all of it is admitted, and else
  -- fails.
  pub guarded_lookup_lem :
      (hostname : List ℕ) (addrs : List Address)
      → guarded_lookup net allow_local hostname ≡ some addrs
        ↔ ((net.dns_lookup hostname ≡ some addrs) × AllAdmitted net allow_local false addrs)
  unfolding guarded_lookup
  guarded_lookup_lem hostname addrs = ground (arith, any_refused-false addrs)
