-- ===== src/UrlGuard.antt =====
-- lib/push.js: the guard against requests to private addresses (parseIPv4, parseIPv6, classifyV4,
-- classifyAddress, stripBrackets, isSafePushUrl, the guarded lookup and the send of
-- UnifiedPushTransport).
-- Texts are lists of code units, addresses lists of bytes.
pub mod Quads
pub mod Ranges
pub mod Words
pub mod Embedded
pub mod Urls
use Prim.Native.Nat.{bit_and, bit_or}
use tyo_mq.Prelude.{
  ℕ, ◌+◌, ◌-◌, ◌*◌, ◌/◌, ◌%◌, zero, suc, Bool, true, false, Option, none, some, List, [], ◌∷◌, ◌++◌,
  ◌&&◌, ◌||◌, length, leb, ltb, not, if◌then◌else◌, ◌==◌, nat_eq, codes_eq, drop, take,
}
use tyo_mq.Prelude.Text.{split, split_double, before, has, cut_at_last}

-- A result of null ends the function.
infixl 5 ◌>>=◌
abbrev pub ◌>>=◌ {ℓ κ} : {A : Type ℓ} {B : Type κ} → Option A → (A → Option B) → Option B
none >>= f = none
some a >>= f = f a

abbrev pub every : (ℕ → Bool) → List ℕ → Bool
every p [] = true
every p (c ∷ cs) = p c && every p cs

-- `\d`
abbrev pub is_digit : ℕ → Bool
is_digit c = leb b'0' c && leb c b'9'

-- `[0-9a-fA-F]`
unfoldable pub is_hex : ℕ → Bool
is_hex c = is_digit c || (leb b'a' c && leb c b'f') || (leb b'A' c && leb c b'F')

-- `parseInt(s, 10)` of digits, behind the number `n`
abbrev pub decimal_value : ℕ → List ℕ → ℕ
decimal_value n [] = n
decimal_value n (c ∷ cs) = decimal_value (n * 10 + (c - b'0')) cs

unfoldable pub hex_digit : ℕ → ℕ
hex_digit c = if leb c b'9' then c - b'0' else if leb b'a' c then c - b'a' + 10 else c - b'A' + 10

-- `parseInt(s, 16)` of digits, behind the number `n`
abbrev pub hex_value : ℕ → List ℕ → ℕ
hex_value n [] = n
hex_value n (c ∷ cs) = hex_value (n * 16 + hex_digit c) cs

-- `n.toString(16)` for a digit
unfoldable pub hex_char : ℕ → ℕ
hex_char d = if ltb d 10 then b'0' + d else b'a' + (d - 10)

-- `n.toString(16)` for a number below 65536
unfoldable pub hex_text : ℕ → List ℕ
hex_text n =
    if ltb n 16
    then hex_char n ∷ []
    else if ltb n 256
    then hex_char (n / 16) ∷ hex_char (n % 16) ∷ []
    else if ltb n 4096
    then hex_char (n / 256) ∷ hex_char (n / 16 % 16) ∷ hex_char (n % 16) ∷ []
    else hex_char (n / 4096)
      ∷ hex_char (n / 256 % 16)
      ∷ hex_char (n / 16 % 16)
      ∷ hex_char (n % 16)
      ∷ []

-- One part of a dotted quad.
unfoldable pub octet : List ℕ → Option ℕ
octet part =
    if not (leb 1 (length part) && leb (length part) 3 && every is_digit part)
    then none
    else if ltb 255 (decimal_value 0 part)
    then none
    else some (decimal_value 0 part)

-- A loop that pushes a number, or returns null.
unfoldable pub cons_all : Option ℕ → Option (List ℕ) → Option (List ℕ)
cons_all none ns = none
cons_all (some n) none = none
cons_all (some n) (some ns) = some (n ∷ ns)

unfoldable pub octets : List (List ℕ) → Option (List ℕ)
unfolding cons_all
octets [] = some []
octets (part ∷ parts) = cons_all (octet part) (octets parts)

-- `parseIPv4`
unfoldable pub parse_ipv4 : List ℕ → Option (List ℕ)
parse_ipv4 s = let parts = split b'.' s in if not (length parts == 4) then none else octets parts

-- `bytes[i]`
abbrev pub byte_at : ℕ → List ℕ → ℕ
byte_at i [] = 0
byte_at zero (b ∷ bs) = b
byte_at (suc i) (b ∷ bs) = byte_at i bs

-- One segment of an IPv6 literal.
unfoldable pub segment : List ℕ → Option ℕ
segment seg =
    if not (leb 1 (length seg) && leb (length seg) 4 && every is_hex seg)
    then none
    else some (hex_value 0 seg)

unfoldable pub segments : List (List ℕ) → Option (List ℕ)
unfolding cons_all
segments [] = some []
segments (seg ∷ segs) = cons_all (segment seg) (segments segs)

-- `toWords`
unfoldable pub to_words : List ℕ → Option (List ℕ)
to_words [] = some []
to_words (c ∷ cs) = segments (split b':' (c ∷ cs))

-- `new Array(n).fill(0)`
abbrev pub zeros : ℕ → List ℕ
zeros zero = []
zeros (suc n) = 0 ∷ zeros n

-- `hi + ':' + lo` for the two words of a dotted quad
abbrev pub quad_words : List ℕ → List ℕ
quad_words v4 =
    hex_text (byte_at 0 v4 * 256 + byte_at 1 v4)
    ++ (b':' ∷ hex_text (byte_at 2 v4 * 256 + byte_at 3 v4))

-- A trailing dotted quad becomes two segments.
unfoldable pub fold_quad : List ℕ → Option (List ℕ)
fold_quad s =
    if has b'.' s
    then (cut_at_last b':' s >>= λ parts.
        parse_ipv4 parts.1 >>= λ v4. some (parts.0 ++ quad_words v4))
    else some s

-- The words before and after a `::`, with zeros between them.
abbrev fill_gap : List ℕ → List ℕ → Option (List ℕ)
fill_gap head tail =
    if ltb 8 (length head + length tail)
    then none
    else some (head ++ (zeros (8 - length head - length tail) ++ tail))

-- The words of the text around its `::`.
unfoldable pub halves_words : List (List ℕ) → Option (List ℕ)
halves_words [] = none
halves_words (one ∷ []) = to_words one
halves_words (one ∷ two ∷ []) = do head ← to_words one; tail ← to_words two; fill_gap head tail
halves_words (one ∷ two ∷ three ∷ more) = none

-- The two bytes of each word.
abbrev pub word_bytes : List ℕ → List ℕ
word_bytes [] = []
word_bytes (w ∷ ws) = bit_and (w / 256) 0xff ∷ bit_and w 0xff ∷ word_bytes ws

-- `parseIPv6`
unfoldable pub parse_ipv6 : List ℕ → Option (List ℕ)
parse_ipv6 s = do
  folded ← fold_quad (before b'%' s)
  words ← halves_words (split_double b':' folded)
  if not (length words == 8) then none else some (word_bytes words)

pub data Class : Type 0 where
  loopback blocked ok : Class

-- `classifyV4`
unfoldable pub classify_v4 : List ℕ → Class
classify_v4 v4 =
    let a = byte_at 0 v4 in
    let b = byte_at 1 v4 in
    if a == 127
    then loopback
    else if a == 0
    then blocked
    else if a == 10
    then blocked
    else if a == 169 && b == 254
    then blocked
    else if a == 172 && leb 16 b && leb b 31
    then blocked
    else if a == 192 && b == 168
    then blocked
    else ok

-- A loop over `bytes[from]` up to `bytes[from + n - 1]` that finds no byte but 0.
abbrev pub all_zero : ℕ → ℕ → List ℕ → Bool
all_zero zero from bytes = true
all_zero (suc n) from bytes = byte_at from bytes == 0 && all_zero n (suc from) bytes

-- `[bytes[i], bytes[i + 1], bytes[i + 2], bytes[i + 3]]`
abbrev pub quad_at : ℕ → List ℕ → List ℕ
quad_at i bytes =
    byte_at i bytes ∷ byte_at (i + 1) bytes ∷ byte_at (i + 2) bytes ∷ byte_at (i + 3) bytes ∷ []

-- `::ffff:a.b.c.d`
unfoldable pub is_mapped : List ℕ → Bool
is_mapped bytes = all_zero 10 0 bytes && byte_at 10 bytes == 0xff && byte_at 11 bytes == 0xff

-- `64:ff9b::/96`
unfoldable pub is_nat64 : List ℕ → Bool
is_nat64 bytes =
    byte_at 0 bytes == 0x00
    && byte_at 1 bytes == 0x64
    && byte_at 2 bytes == 0xff
    && byte_at 3 bytes == 0x9b
    && all_zero 8 4 bytes

-- `2002::/16`
unfoldable pub is_6to4 : List ℕ → Bool
is_6to4 bytes = byte_at 0 bytes == 0x20 && byte_at 1 bytes == 0x02

-- `::a.b.c.d`, neither `::` nor `::1`
unfoldable pub is_compatible : List ℕ → Bool
is_compatible bytes =
    let b = λ (i : ℕ). byte_at i bytes in
    all_zero 12 0 bytes
    && not (bit_or (bit_or (bit_or (b 12) (b 13)) (b 14)) (b 15) == 0)
    && not (b 12 == 0 && b 13 == 0 && b 14 == 0 && b 15 == 1)

-- `::1`
unfoldable pub is_loopback : List ℕ → Bool
is_loopback bytes = all_zero 15 0 bytes && byte_at 15 bytes == 1

-- `::`
unfoldable pub is_unspecified : List ℕ → Bool
is_unspecified bytes = all_zero 16 0 bytes

-- The part of `classifyAddress` that is about an IPv6 address.
unfoldable pub classify_bytes : List ℕ → Class
classify_bytes bytes =
    if is_mapped bytes
    then classify_v4 (quad_at 12 bytes)
    else if is_nat64 bytes
    then classify_v4 (quad_at 12 bytes)
    else if is_6to4 bytes
    then classify_v4 (quad_at 2 bytes)
    else if is_compatible bytes
    then classify_v4 (quad_at 12 bytes)
    else if is_loopback bytes
    then loopback
    else if is_unspecified bytes
    then blocked
    else if bit_and (byte_at 0 bytes) 0xfe == 0xfc
    then blocked
    else if byte_at 0 bytes == 0xfe && bit_and (byte_at 1 bytes) 0xc0 == 0x80
    then blocked
    else if bit_and (byte_at 0 bytes) 0xe0 == 0x20
    then ok
    else blocked

-- `classifyAddress`. `is_ipv4` is the answer of Node's net.isIPv4, `family` the resolver's.
unfoldable pub classify_address : (is_ipv4 : List ℕ → Bool) → List ℕ → ℕ → Class
classify_address is_ipv4 address family =
    if family == 4 || is_ipv4 address
    then elim (parse_ipv4 address) [ none ↦ blocked | some v4 ↦ classify_v4 v4 ]
    else elim (parse_ipv6 address) [ none ↦ blocked | some bytes ↦ classify_bytes bytes ]
