-- ===== src/UrlGuard/Ranges.antt =====
-- The classifier against tables of address ranges.
use Prim.Native.Nat.{bit_or}
use tyo_mq.Prelude.{
  ℕ, ◌+◌, ◌*◌, ◌/◌, ◌^◌, ◌<◌, ◌≡◌, Option, none, some, List, [], ◌∷◌, ◌++◌, arith, Bool, true,
  false, ◌⊎◌, ◌==◌, nat_eq, if◌then◌else◌, ◌&&◌, ◌||◌, not,
}
use tyo_mq.Prelude.Bits.{high_three, high_seven, le-bit_or, bit_or-zero}
use tyo_mq.UrlGuard.{
  Class, loopback, blocked, ok, classify_v4, classify_bytes, is_mapped, is_nat64, is_6to4,
  is_compatible, is_loopback, is_unspecified, byte_at, quad_at, zeros,
}

-- The number that four bytes stand for.
abbrev pub quad_number : ℕ → ℕ → ℕ → ℕ → ℕ
quad_number a b c d = a * 2 ^ 24 + b * 2 ^ 16 + c * 2 ^ 8 + d

-- Some range has the number: a range is the number of its low bits and what stands above these.
pub in_ranges : List (ℕ × ℕ) → ℕ → Bool
in_ranges [] n = false
in_ranges ((low_bits, prefix) ∷ ranges) n = n / 2 ^ low_bits == prefix || in_ranges ranges n

-- 127.0.0.0/8
pub loopback_ranges : List (ℕ × ℕ)
loopback_ranges = (24, 127) ∷ []

-- 0.0.0.0/8, 10.0.0.0/8, 169.254.0.0/16, 172.16.0.0/12, 192.168.0.0/16
pub private_ranges : List (ℕ × ℕ)
private_ranges =
    (24, 0) ∷ (24, 10) ∷ (16, 169 * 256 + 254) ∷ (20, 172 * 16 + 1) ∷ (16, 192 * 256 + 168) ∷ []

-- An IPv4 address is classified by the ranges that have its number.
pub classify_v4-in_ranges :
    (a b c d : ℕ)
    → a < 256
    → b < 256
    → c < 256
    → d < 256
    → classify_v4 (a ∷ b ∷ c ∷ d ∷ []) ≡ (
        if in_ranges loopback_ranges (quad_number a b c d)
        then loopback
        else if in_ranges private_ranges (quad_number a b c d)
        then blocked
        else ok)
unfolding classify_v4 in_ranges loopback_ranges private_ranges
classify_v4-in_ranges a b c d ha hb hc hd = ground arith

-- The text starts with the prefix.
pub starts_with : List ℕ → List ℕ → Bool
starts_with [] bytes = true
starts_with (p ∷ ps) [] = false
starts_with (p ∷ ps) (b ∷ bs) = b == p && starts_with ps bs

-- The prefixes under which an IPv6 address carries an IPv4 address, and where it stands:
-- ::ffff:0:0/96, 64:ff9b::/96, 2002::/16 and ::/96.
pub embeddings : List (List ℕ × ℕ)
embeddings =
    (zeros 10 ++ (0xff ∷ 0xff ∷ []), 12)
    ∷ (0x00 ∷ 0x64 ∷ 0xff ∷ 0x9b ∷ zeros 8, 12)
    ∷ (0x20 ∷ 0x02 ∷ [], 2)
    ∷ (zeros 12, 12)
    ∷ []

-- The IPv4 address that an address carries by the table.
pub embedded : List (List ℕ × ℕ) → List ℕ → Option (List ℕ)
embedded [] bytes = none
embedded ((prefix, i) ∷ more) bytes =
    if starts_with prefix bytes then some (quad_at i bytes) else embedded more bytes

-- `::1`, `::`, what carries an IPv4 address, 2000::/3, and the rest
pub reference_class : List ℕ → Class
reference_class bytes =
    if starts_with (zeros 15 ++ (1 ∷ [])) bytes
    then loopback
    else if starts_with (zeros 16) bytes
    then blocked
    else elim (embedded embeddings bytes) [
      | some v4 ↦ classify_v4 v4
      | none ↦ if byte_at 0 bytes / 32 == 1 then ok else blocked
    ]

module _ (b0 b1 b2 b3 b4 b5 b6 b7 b8 b9 b10 b11 b12 b13 b14 b15 : ℕ) where
  abbrev pub address : List ℕ
  address = b0 ∷ b1 ∷ b2 ∷ b3 ∷ b4 ∷ b5 ∷ b6 ∷ b7 ∷ b8 ∷ b9 ∷ b10 ∷ b11 ∷ b12 ∷ b13 ∷ b14 ∷ b15 ∷ []

  is_mapped_lem : is_mapped address ≡ starts_with (zeros 10 ++ (0xff ∷ 0xff ∷ [])) address
  unfolding is_mapped starts_with
  is_mapped_lem = ground arith

  is_nat64_lem : is_nat64 address ≡ starts_with (0x00 ∷ 0x64 ∷ 0xff ∷ 0x9b ∷ zeros 8) address
  unfolding is_nat64 starts_with
  is_nat64_lem = ground arith

  is_6to4_lem : is_6to4 address ≡ starts_with (0x20 ∷ 0x02 ∷ []) address
  unfolding is_6to4 starts_with
  is_6to4_lem = ground arith

  is_loopback_lem : is_loopback address ≡ starts_with (zeros 15 ++ (1 ∷ [])) address
  unfolding is_loopback starts_with
  is_loopback_lem = ground arith

  is_unspecified_lem : is_unspecified address ≡ starts_with (zeros 16) address
  unfolding is_unspecified starts_with
  is_unspecified_lem = ground arith

  -- What is embedded under twelve zeros is neither `::` nor `::1`.
  is_compatible_lem : is_compatible address ≡ (
      starts_with (zeros 12) address && not (is_loopback address) && not (is_unspecified address))
  unfolding is_compatible is_loopback is_unspecified starts_with
  is_compatible_lem = ground (
    arith,
    bit_or-zero,
    le-bit_or (bit_or (bit_or b12 b13) b14) b15,
    le-bit_or (bit_or b12 b13) b14,
    le-bit_or b12 b13,
  )

  special_lem :
      (is_loopback address ≡ true) ⊎ (is_unspecified address ≡ true)
      → (is_mapped address ≡ false) × (is_nat64 address ≡ false) × (is_6to4 address ≡ false)
  unfolding is_mapped is_nat64 is_6to4 is_loopback is_unspecified
  special_lem h = ground arith

  apart : (is_loopback address ≡ true) → (is_unspecified address ≡ false)
  unfolding is_loopback is_unspecified
  apart h = ground arith

  -- An IPv6 address is classified by the tables.
  pub classify_bytes-reference_class : b0 < 256 → classify_bytes address ≡ reference_class address
  unfolding classify_bytes reference_class embedded embeddings
  classify_bytes-reference_class h = ground (
    arith,
    high_three b0 h,
    high_seven b0 h,
    is_mapped_lem,
    is_nat64_lem,
    is_6to4_lem,
    is_loopback_lem,
    is_unspecified_lem,
    is_compatible_lem,
    special_lem,
    apart,
  )
