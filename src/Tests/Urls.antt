-- ===== src/Tests/Urls.antt =====
-- Concrete push endpoints.
use tyo_mq.Prelude.{
  ℕ, false, not, List, [], ◌∷◌, ◌++◌, ◌≡◌, ◌↔◌, refl, none, some, if◌then◌else◌, ◌==◌, nat_eq,
  codes_eq, arith,
}
use tyo_mq.Prelude.Text.{codes, has, split, split_double, before, cut_at_last}
use tyo_mq.UrlGuard.{
  loopback, blocked, ok, classify_v4, classify_bytes, classify_address, parse_ipv4, parse_ipv6,
  octets, octet, cons_all, segment, segments, to_words, fold_quad, halves_words, hex_text, hex_char,
  is_hex, hex_digit, is_mapped, is_nat64, is_6to4, is_compatible, is_loopback, is_unspecified,
}
use tyo_mq.UrlGuard.Quads.{quad_text}
use tyo_mq.UrlGuard.Embedded.{classify_address-quad_text}
use tyo_mq.UrlGuard.Ranges.{
  in_ranges, loopback_ranges, private_ranges, quad_number, reference_class,
  classify_bytes-reference_class, classify_v4-in_ranges,
}
use tyo_mq.UrlGuard.Urls.{
  Address, Url, Network, accepted, is_safe_push_url, guarded_lookup, check_parsed, check_url,
  url_refusal, judge_resolved, judge, conclude, scan, addresses_of, strip_brackets,
}
use tyo_mq.UrlGuard.Urls.Loop.{AllAdmitted}
use tyo_mq.UrlGuard.Urls.Safety.{IsSafe, is_safe_push_url-IsSafe, guarded_lookup_lem}

abbrev endpoint : List ℕ
endpoint = codes "https://up.example/x"

abbrev parsed : Url
parsed = record {
  protocol = codes "https:";
  username = [];
  password = [];
  hostname = codes "up.example";
}

abbrev resolved : List Address
resolved = record { address = codes "93.184.216.34"; family = 4 } ∷ []

-- A resolver that knows one host.
abbrev internet : Network
internet = record {
  parse_url = λ raw. if raw == endpoint then some parsed else none;
  is_ip = λ host. 0;
  is_ipv4 = λ s. not (has b':' s);
  dns_lookup = λ host. some resolved;
}

literals :
    (parse_ipv4 (codes "169.254.169.254") ≡ some (169 ∷ 254 ∷ 169 ∷ 254 ∷ []))
    × (parse_ipv4 (codes "1.2.3.256") ≡ none)
    × (parse_ipv6 (codes "64:ff9b::a9fe:a9fe") ≡ parse_ipv6 (codes "64:ff9b::169.254.169.254"))
    × (parse_ipv6 (codes "1:2:3") ≡ none)
    × (classify_address internet.is_ipv4 (codes "::1") 6 ≡ loopback)
    × (classify_address internet.is_ipv4 (codes "fe80::1%eth0") 6 ≡ blocked)
    × (classify_address internet.is_ipv4 (codes "2606:4700::1111") 6 ≡ ok)
    × (classify_address internet.is_ipv4 (codes "2002:a00:1::") 6 ≡ blocked)
unfolding parse_ipv4 parse_ipv6 octets octet cons_all segment segments to_words fold_quad
    halves_words hex_text hex_char is_hex hex_digit split split_double before has cut_at_last nat_eq
    classify_address classify_bytes classify_v4 is_mapped is_nat64 is_6to4 is_compatible is_loopback
    is_unspecified
literals = (refl, refl, refl, refl, refl, refl, refl, refl)

endpoint_accepted : is_safe_push_url internet false (some endpoint) ≡ accepted (codes "up.example")
unfolding parse_ipv4 parse_ipv6 octets octet cons_all segment segments to_words fold_quad
    halves_words hex_text hex_char is_hex hex_digit split split_double before has cut_at_last nat_eq
    codes_eq is_safe_push_url check_parsed check_url url_refusal judge_resolved judge conclude scan
    addresses_of strip_brackets classify_address classify_v4
endpoint_accepted = refl

abbrev documentation_bytes : List ℕ
documentation_bytes = 0x20 ∷ 0x01 ∷ 0 ∷ 0 ∷ 0 ∷ 0 ∷ 0 ∷ 0 ∷ 0 ∷ 0 ∷ 0 ∷ 0 ∷ 0 ∷ 0 ∷ 0 ∷ 1 ∷ []

documentation_parsed : parse_ipv6 (codes "2001::1") ≡ some documentation_bytes
unfolding parse_ipv4 parse_ipv6 octets octet cons_all segment segments to_words fold_quad
    halves_words hex_text hex_char is_hex hex_digit split split_double before has cut_at_last nat_eq
documentation_parsed = refl

classify_address-quad_text_example :
    (classify_address internet.is_ipv4 (quad_text 169 254 169 254) 4
      ≡ classify_v4 (169 ∷ 254 ∷ 169 ∷ 254 ∷ []))
    × (classify_address internet.is_ipv4 (codes "::ffff:" ++ quad_text 169 254 169 254) 6
        ≡ classify_v4 (169 ∷ 254 ∷ 169 ∷ 254 ∷ []))
    × (classify_address internet.is_ipv4 (codes "64:ff9b::" ++ quad_text 169 254 169 254) 6
        ≡ classify_v4 (169 ∷ 254 ∷ 169 ∷ 254 ∷ []))
classify_address-quad_text_example =
    classify_address-quad_text internet.is_ipv4 169 254 169 254 (λ s h. ground (arith, h))
      (omega arith) (omega arith) (omega arith) (omega arith)

classify_bytes-reference_class_example :
    classify_bytes (0x20 ∷ 0x02 ∷ 10 ∷ 0 ∷ 0 ∷ 1 ∷ 0 ∷ 0 ∷ 0 ∷ 0 ∷ 0 ∷ 0 ∷ 0 ∷ 0 ∷ 0 ∷ 0 ∷ [])
    ≡ reference_class (0x20 ∷ 0x02 ∷ 10 ∷ 0 ∷ 0 ∷ 1 ∷ 0 ∷ 0 ∷ 0 ∷ 0 ∷ 0 ∷ 0 ∷ 0 ∷ 0 ∷ 0 ∷ 0 ∷ [])
classify_bytes-reference_class_example =
    classify_bytes-reference_class 0x20 0x02 10 0 0 1 0 0 0 0 0 0 0 0 0 0 (omega arith)

is_safe_push_url-IsSafe_example :
    is_safe_push_url internet false (some endpoint) ≡ accepted (codes "up.example")
    ↔ IsSafe internet false endpoint (codes "up.example")
is_safe_push_url-IsSafe_example =
    is_safe_push_url-IsSafe internet false endpoint (codes "up.example")

guarded_lookup_lem_example :
    guarded_lookup internet false (codes "up.example") ≡ some resolved
    ↔ ((some resolved ≡ some resolved) × AllAdmitted internet false false resolved)
guarded_lookup_lem_example = guarded_lookup_lem internet false (codes "up.example") resolved

-- The last address of 172.16.0.0/12.
classify_v4-in_ranges_example : classify_v4 (172 ∷ 31 ∷ 255 ∷ 255 ∷ []) ≡ (
    if in_ranges loopback_ranges (quad_number 172 31 255 255)
    then loopback
    else if in_ranges private_ranges (quad_number 172 31 255 255)
    then blocked
    else ok)
classify_v4-in_ranges_example =
    classify_v4-in_ranges 172 31 255 255 (omega arith) (omega arith) (omega arith) (omega arith)
