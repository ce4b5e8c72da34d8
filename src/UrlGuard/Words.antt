-- ===== src/UrlGuard/Words.antt =====
-- The bytes of an IPv6 address: there are sixteen of them, and a word that is printed is read back.
use tyo_mq.Prelude.{
  ℕ, ◌*◌, ◌/◌, ◌%◌, ◌<◌, ◌≡◌, ◌≢◌, refl, some, List, [], ◌∷◌, length, arith, AllTrue, true, nat_eq,
}
use tyo_mq.Prelude.Bits.{bit_and-le}
use tyo_mq.Prelude.Text.{Lacks}
use tyo_mq.UrlGuard.{is_hex, hex_char, hex_digit, hex_text, segment, word_bytes, parse_ipv6}
use tyo_mq.UrlGuard.Quads.{is_byte}

hex_char-IsHex : (d : ℕ) → d < 16 → is_hex (hex_char d) ≡ true
unfolding is_hex hex_char
hex_char-IsHex d h = ground arith

hex_digit-hex_char : (d : ℕ) → d < 16 → hex_digit (hex_char d) ≡ d
unfolding hex_digit hex_char
hex_digit-hex_char d h = ground arith

hex_char-ne_colon : (d : ℕ) → d < 16 → hex_char d ≢ b':'
unfolding hex_char
hex_char-ne_colon d h = ground arith

pub segment-hex_text : (n : ℕ) → n < 65536 → segment (hex_text n) ≡ some n
unfolding segment hex_text
segment-hex_text n h =
    let third : n / 4096 < 16 = omega arith in
    let second : n / 256 % 16 < 16 = omega arith in
    let first : n / 16 % 16 < 16 = omega arith in
    let last : n % 16 < 16 = omega arith in
    ground (
      arith,
      hex_char-IsHex (n / 4096) third,
      hex_char-IsHex (n / 256 % 16) second,
      hex_char-IsHex (n / 16 % 16) first,
      hex_char-IsHex (n % 16) last,
      hex_digit-hex_char (n / 4096) third,
      hex_digit-hex_char (n / 256 % 16) second,
      hex_digit-hex_char (n / 16 % 16) first,
      hex_digit-hex_char (n % 16) last,
      hex_char-IsHex n,
      hex_char-IsHex (n / 16),
      hex_char-IsHex (n / 256),
      hex_digit-hex_char n,
      hex_digit-hex_char (n / 16),
      hex_digit-hex_char (n / 256),
    )

pub hex_text-Lacks : (n : ℕ) → n < 65536 → Lacks b':' (hex_text n)
unfolding hex_text
hex_text-Lacks n h = ground (
  arith,
  hex_char-ne_colon n,
  hex_char-ne_colon (n / 16),
  hex_char-ne_colon (n / 256),
  hex_char-ne_colon (n / 4096) (omega arith),
  hex_char-ne_colon (n / 256 % 16) (omega arith),
  hex_char-ne_colon (n / 16 % 16) (omega arith),
  hex_char-ne_colon (n % 16) (omega arith),
)

pub hex_text-ne_nil : (n : ℕ) → hex_text n ≢ []
unfolding hex_text
hex_text-ne_nil n = ground arith

word_bytes_lem :
    (ws : List ℕ) → (length (word_bytes ws) ≡ 2 * length ws) × AllTrue is_byte (word_bytes ws)
word_bytes_lem [] = (refl, tt)
word_bytes_lem (w ∷ ws) =
    ground (arith, word_bytes_lem ws, bit_and-le (w / 256) 0xff, bit_and-le w 0xff)

-- What is parsed is sixteen bytes.
pub parse_ipv6_bytes :
    (s bytes : List ℕ) → parse_ipv6 s ≡ some bytes → (length bytes ≡ 16) × AllTrue is_byte bytes
unfolding parse_ipv6
parse_ipv6_bytes s bytes h = grind (arith, word_bytes_lem)
