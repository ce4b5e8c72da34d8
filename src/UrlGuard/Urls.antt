-- ===== src/UrlGuard/Urls.antt =====
-- isSafePushUrl, the guarded lookup and the transport that posts to a client's URL. What the code takes from Node (URL,
-- net, dns) is a parameter.
pub mod Loop
pub mod Safety
use tyo_mq.Prelude.{
  ℕ, ◌-◌, ◌≡◌, ◌≢◌, ◌↔◌, refl, Option, none, some, List, [], ◌∷◌, length, arith, Bool, true, false,
  ◌==◌, nat_eq, codes_eq, if◌then◌else◌, ◌&&◌, ◌||◌, not, ltb, drop, take, AllTrue, Bool-cases,
  Option-cases, inl, inr,
}
use tyo_mq.Prelude.Text.{codes}
use tyo_mq.UrlGuard.{Class, loopback, blocked, ok, classify_address, byte_at}

-- A resolved address: its text and its family, 4 or 6.
pub record Address : Type 0 where
  pub address : List ℕ
  pub family : ℕ

pub record Url : Type 0 where
  pub protocol : List ℕ
  pub username : List ℕ
  pub password : List ℕ
  pub hostname : List ℕ

-- `new URL` (none where it throws), net.isIP (4, 6 or 0), net.isIPv4 and the resolver (none where it
-- fails).
pub record Network : Type 0 where
  pub parse_url : List ℕ → Option Url
  pub is_ip : List ℕ → ℕ
  pub is_ipv4 : List ℕ → Bool
  pub dns_lookup : List ℕ → Option (List Address)

pub data Reason : Type 0 where
  empty too_long invalid_url credentials_in_url bad_scheme http_forbidden no_host : Reason
  dns_failed dns_empty blocked_address loopback_address http_non_local : Reason

pub data Verdict : Type 0 where
  accepted : List ℕ → Verdict
  refused : Reason → Verdict

abbrev pub push_max_token_length : ℕ
push_max_token_length = 4096

-- `stripBrackets`
unfoldable pub strip_brackets : List ℕ → List ℕ
strip_brackets host =
    if ltb 1 (length host) && byte_at 0 host == b'[' && byte_at (length host - 1) host == b']'
    then take (length host - 2) (drop 1 host)
    else host

-- What the loop over the addresses has seen: it stops at an address, or goes on to the end.
pub data Scan : Type 0 where
  stopped : Reason → Scan
  saw_public : Bool → Scan

-- The end of `isSafePushUrl`.
unfoldable pub conclude : Bool → List ℕ → Scan → Verdict
conclude is_http host (stopped reason) = refused reason
conclude is_http host (saw_public seen) =
    if is_http && seen then refused http_non_local else accepted host

-- The returns of `isSafePushUrl` that need no resolution.
unfoldable pub url_refusal : Bool → Url → Option Reason
url_refusal allow_local u =
    let is_https = u.protocol == codes "https:" in
    let is_http = u.protocol == codes "http:" in
    if not (u.username == []) || not (u.password == [])
    then some credentials_in_url
    else if not is_https && not is_http
    then some bad_scheme
    else if is_http && not allow_local
    then some http_forbidden
    else if strip_brackets u.hostname == []
    then some no_host
    else none

-- An early return.
abbrev pub unless : Option Reason → Verdict → Verdict
unless (some reason) v = refused reason
unless none v = v

module _ (net : Network) where
  abbrev pub class_of : Address → Class
  class_of a = classify_address net.is_ipv4 a.address a.family

  -- The loop of `isSafePushUrl`. `seen` is its `sawPublic`.
  unfoldable pub scan : Bool → List Address → Bool → Scan
  scan allow_local [] seen = saw_public seen
  scan allow_local (a ∷ addrs) seen =
      let rest = scan allow_local addrs seen in
      let rest_public = scan allow_local addrs true in
      elim (class_of a) [
        | blocked ↦ stopped blocked_address
        | loopback ↦ if not allow_local then stopped loopback_address else rest
        | ok ↦ rest_public
      ]

  -- The addresses of a host: its own, or the resolver's.
  unfoldable pub addresses_of : List ℕ → Option (List Address)
  addresses_of host =
      if not (net.is_ip host == 0)
      then some (record { address = host; family = net.is_ip host } ∷ [])
      else net.dns_lookup host

  -- The part of `isSafePushUrl` behind the resolution.
  unfoldable pub judge : Bool → Bool → List ℕ → List Address → Verdict
  judge allow_local is_http host [] = refused dns_empty
  judge allow_local is_http host (a ∷ addrs) =
      conclude is_http host (scan allow_local (a ∷ addrs) false)

  -- The part of `isSafePushUrl` from the resolution on.
  unfoldable pub judge_resolved : Bool → Bool → List ℕ → Option (List Address) → Verdict
  judge_resolved allow_local is_http host none = refused dns_failed
  judge_resolved allow_local is_http host (some addrs) = judge allow_local is_http host addrs

  -- The part of `isSafePushUrl` behind `new URL`.
  unfoldable pub check_url : Bool → Url → Verdict
  check_url allow_local u =
      let host = strip_brackets u.hostname in
      unless (url_refusal allow_local u)
        (judge_resolved allow_local (u.protocol == codes "http:") host (addresses_of host))

  unfoldable pub check_parsed : Bool → Option Url → Verdict
  check_parsed allow_local none = refused invalid_url
  check_parsed allow_local (some u) = check_url allow_local u

  -- `isSafePushUrl`; `none` for a value that is no string
  unfoldable pub is_safe_push_url : Bool → Option (List ℕ) → Verdict
  is_safe_push_url allow_local none = refused empty
  is_safe_push_url allow_local (some raw) =
      if length raw == 0
      then refused empty
      else if ltb push_max_token_length (length raw)
      then refused too_long
      else check_parsed allow_local (net.parse_url raw)

  -- The test of `_guardedLookup`.
  unfoldable pub lookup_refuses : Bool → Address → Bool
  lookup_refuses allow_local a = elim (class_of a) [
    | blocked ↦ true
    | loopback ↦ not allow_local
    | ok ↦ false
  ]

  any_refused : Bool → List Address → Bool
  any_refused allow_local [] = false
  any_refused allow_local (a ∷ addrs) =
      lookup_refuses allow_local a || any_refused allow_local addrs

  -- `_guardedLookup`: `none` is an error. A lookup of one address gives one.
  unfoldable pub guarded_lookup : Bool → List ℕ → Option (List Address)
  unfolding any_refused
  guarded_lookup allow_local hostname = elim (net.dns_lookup hostname) [
    | none ↦ none
    | some addrs ↦ if any_refused allow_local addrs then none else some addrs
  ]

-- What `send` of UnifiedPushTransport does: nothing, or one POST to the URL.
pub data Sending : Type 0 where
  unsafe : Sending
  post : List ℕ → Sending

unfoldable pub post_if : Verdict → List ℕ → Sending
post_if (refused reason) url = unsafe
post_if (accepted host) url = post url

unfoldable pub send : Network → Bool → Option (List ℕ) → Sending
send net allow_local none = unsafe
send net allow_local (some url) = post_if (is_safe_push_url net allow_local (some url)) url
