-- ===== src/UrlGuard/Embedded.antt =====
-- IPv6 addresses that carry an IPv4 address are classified by it, from the text on.
use tyo_mq.Prelude.{
  ℕ, ◌+◌, ◌*◌, ◌/◌, ◌<◌, ◌≡◌, ◌≢◌, refl, some, List, [], ◌∷◌, ◌++◌, length, arith, ◌∙◌, ap, Bool,
  true, false, nat_eq,
}
use tyo_mq.Prelude.Bits.{low_byte}
use tyo_mq.Prelude.Text.{
  codes, Lacks, split_double, before, before-Lacks, has, split, split-append, split-Lacks,
  has-append, cut_at_last-append,
}
use tyo_mq.UrlGuard.{
  ◌>>=◌, is_hex, hex_digit, hex_text, segment, segments, to_words, fold_quad, halves_words,
  parse_ipv6, word_bytes, cons_all, zeros, classify_v4, classify_bytes, is_mapped, is_nat64,
  classify_address,
}
use tyo_mq.UrlGuard.Quads.{quad_text, octet_text, quad_text-Lacks, parse_ipv4-quad_text}
use tyo_mq.UrlGuard.Words.{segment-hex_text, hex_text-Lacks, hex_text-ne_nil}

-- No two separators stand side by side.
Single : ℕ → List ℕ → Type 0
Single sep [] = Unit
Single sep (c ∷ []) = Unit
Single sep (c ∷ d ∷ cs) = ¬ ((c ≡ sep) × (d ≡ sep)) × Single sep (d ∷ cs)

split_double-Single : (sep : ℕ) (xs : List ℕ) → Single sep xs → split_double sep xs ≡ xs ∷ []
unfolding split_double Single
split_double-Single sep [] s = refl
split_double-Single sep (c ∷ []) s = refl
split_double-Single sep (c ∷ d ∷ cs) s = ground (arith, split_double-Single sep (d ∷ cs) s.1)

Lacks-Single : (sep : ℕ) (xs : List ℕ) → Lacks sep xs → Single sep xs
unfolding Single
Lacks-Single sep [] l = tt
Lacks-Single sep (c ∷ []) l = tt
Lacks-Single sep (c ∷ d ∷ cs) l = (λ e. l.0 e.0, Lacks-Single sep (d ∷ cs) l.1)

-- One separator between texts that lack it.
Lacks-Single-append :
    (sep : ℕ) (xs ys : List ℕ)
    → Lacks sep xs
    → Single sep (sep ∷ ys)
    → Single sep (xs ++ (sep ∷ ys))
unfolding Single
Lacks-Single-append sep [] ys l s = s
Lacks-Single-append sep (c ∷ []) ys l s = (λ e. l.0 e.0, s)
Lacks-Single-append sep (c ∷ d ∷ cs) ys l s =
    (λ e. l.0 e.0, Lacks-Single-append sep (d ∷ cs) ys l.1 s)

lone_front : (sep : ℕ) (xs : List ℕ) → Lacks sep xs → Single sep (sep ∷ xs)
unfolding Single
lone_front sep [] l = tt
lone_front sep (x ∷ xs) l = (λ e. l.0 e.1, Lacks-Single sep (x ∷ xs) l)

-- Two texts that lack the separator, the first one not empty, each behind a separator.
lone_two :
    (sep : ℕ) (xs ys : List ℕ)
    → xs ≢ []
    → Lacks sep xs
    → Lacks sep ys
    → Single sep (sep ∷ (xs ++ (sep ∷ ys)))
unfolding Single
lone_two sep [] ys h lx ly = absurd (h refl)
lone_two sep (x ∷ xs) ys h lx ly =
    (λ e. lx.0 e.1, Lacks-Single-append sep (x ∷ xs) ys lx (lone_front sep ys ly))

ffff_Lacks : Lacks b':' (codes "ffff")
ffff_Lacks = ground arith

segment_ffff : segment (codes "ffff") ≡ some 0xffff
unfolding segment is_hex hex_digit
segment_ffff = refl

has-append_right : (sep : ℕ) (xs ys : List ℕ) → has sep ys ≡ true → has sep (xs ++ ys) ≡ true
unfolding has
has-append_right sep [] ys h = h
has-append_right sep (x ∷ xs) ys h = ground (arith, has-append_right sep xs ys h)

has-quad_text : (a b c d : ℕ) → has b'.' (quad_text a b c d) ≡ true
unfolding quad_text
has-quad_text a b c d = has-append b'.' (octet_text a) _

nat64_segments : segments (split b':' (codes "64:ff9b")) ≡ some (0x64 ∷ 0xff9b ∷ [])
unfolding segments cons_all split segment is_hex hex_digit nat_eq
nat64_segments = refl

-- The stages of the parser put together.
parse_ipv6_stages :
    (s folded ws : List ℕ)
    → before b'%' s ≡ s
    → fold_quad s ≡ some folded
    → halves_words (split_double b':' folded) ≡ some ws
    → length ws ≡ 8
    → parse_ipv6 s ≡ some (word_bytes ws)
unfolding parse_ipv6
parse_ipv6_stages s folded ws e f h k = rw (e, f, ◌>>=◌, h, ◌>>=◌) (ground arith)

to_words-segments : (xs : List ℕ) → xs ≢ [] → to_words xs ≡ segments (split b':' xs)
unfolding to_words
to_words-segments [] h = absurd (h refl)
to_words-segments (x ∷ xs) h = refl

append-ne_nil : (xs : List ℕ) (y : ℕ) (ys : List ℕ) → xs ++ (y ∷ ys) ≢ []
append-ne_nil [] y ys = ground arith
append-ne_nil (x ∷ xs) y ys = ground arith

module _ (a b c d : ℕ) (ha : a < 256) (hb : b < 256) (hc : c < 256) (hd : d < 256) where
  abbrev high : ℕ
  high = a * 256 + b

  abbrev low : ℕ
  low = c * 256 + d

  -- The words that a trailing dotted quad becomes.
  abbrev word_texts : List ℕ
  word_texts = hex_text high ++ (b':' ∷ hex_text low)

  fold_quad_lem :
      (p : List ℕ)
      → fold_quad (p ++ (b':' ∷ quad_text a b c d)) ≡ some ((p ++ (b':' ∷ [])) ++ word_texts)
  unfolding fold_quad
  fold_quad_lem p = simp (
    has-append_right b'.' p (b':' ∷ quad_text a b c d)
        (has-append_right b'.' (b':' ∷ []) _ (has-quad_text a b c d)),
    cut_at_last-append b':' p (quad_text a b c d)
        (quad_text-Lacks a b c d b':' ha hb hc hd refl (omega arith)),
    parse_ipv4-quad_text a b c d ha hb hc hd,
  )

  high-Lacks : Lacks b':' (hex_text high)
  high-Lacks = hex_text-Lacks high (omega arith)

  low-Lacks : Lacks b':' (hex_text low)
  low-Lacks = hex_text-Lacks low (omega arith)

  word_texts-segments : segments (split b':' word_texts) ≡ some (high ∷ low ∷ [])
  unfolding segments cons_all
  word_texts-segments =
      rw
        (
          split-append b':' (hex_text high) (hex_text low) high-Lacks,
          split-Lacks b':' (hex_text low) low-Lacks,
        )
        (simp (segment-hex_text high (omega arith), segment-hex_text low (omega arith)))

  mapped_segments :
      segments (split b':' (codes "ffff:" ++ word_texts)) ≡ some (0xffff ∷ high ∷ low ∷ [])
  unfolding segments cons_all
  mapped_segments =
      rw (split-append b':' (codes "ffff") word_texts ffff_Lacks)
        (simp (segment_ffff, word_texts-segments))

  word_texts-Single : Single b':' (b':' ∷ word_texts)
  word_texts-Single =
      lone_two b':' (hex_text high) (hex_text low) (hex_text-ne_nil high) high-Lacks low-Lacks

  mapped_halves :
      split_double b':' (codes "::ffff:" ++ word_texts) ≡ [] ∷ (codes "ffff:" ++ word_texts) ∷ []
  unfolding split_double nat_eq
  mapped_halves =
      rw
        (split_double-Single b':' (codes "ffff:" ++ word_texts)
          (Lacks-Single-append b':' (codes "ffff") word_texts ffff_Lacks word_texts-Single))
        refl

  nat64_halves :
      split_double b':' (codes "64:ff9b::" ++ word_texts) ≡ codes "64:ff9b" ∷ word_texts ∷ []
  unfolding split_double nat_eq
  nat64_halves =
      rw
        (split_double-Single b':' word_texts (
          Lacks-Single-append b':' (hex_text high) (hex_text low) high-Lacks
            (lone_front b':' (hex_text low) low-Lacks)))
        refl

  mapped_words :
      halves_words (split_double b':' (codes "::ffff:" ++ word_texts))
      ≡ some (zeros 5 ++ (0xffff ∷ high ∷ low ∷ []))
  unfolding halves_words to_words
  mapped_words = rw (mapped_halves, mapped_segments, ◌>>=◌) refl

  nat64_words :
      halves_words (split_double b':' (codes "64:ff9b::" ++ word_texts))
      ≡ some (0x64 ∷ 0xff9b ∷ (zeros 4 ++ (high ∷ low ∷ [])))
  unfolding halves_words to_words
  nat64_words =
      let words : to_words word_texts ≡ some (high ∷ low ∷ []) =
        to_words-segments word_texts (append-ne_nil (hex_text high) b':' (hex_text low))
        ∙ word_texts-segments in
      rw (nat64_halves, nat64_segments, words, ◌>>=◌) refl

  -- The words of the address as bytes.
  quad_bytes : word_bytes (high ∷ low ∷ []) ≡ a ∷ b ∷ c ∷ d ∷ []
  quad_bytes =
      simp (low_byte (high / 256), low_byte high, low_byte (low / 256), low_byte low) (ground arith)

  quad_text-NoZone : Lacks b'%' (quad_text a b c d)
  quad_text-NoZone = quad_text-Lacks a b c d b'%' ha hb hc hd refl (omega arith)

  parse_ipv6_mapped :
      parse_ipv6 (codes "::ffff:" ++ quad_text a b c d)
      ≡ some (zeros 10 ++ (0xff ∷ 0xff ∷ a ∷ b ∷ c ∷ d ∷ []))
  parse_ipv6_mapped =
      parse_ipv6_stages (codes "::ffff:" ++ quad_text a b c d) (codes "::ffff:" ++ word_texts)
        (zeros 5 ++ (0xffff ∷ high ∷ low ∷ []))
        (before-Lacks b'%' _ (ground (arith, quad_text-NoZone))) (fold_quad_lem (codes "::ffff"))
        mapped_words refl
      ∙ ap (λ t. some (zeros 10 ++ (0xff ∷ 0xff ∷ t))) quad_bytes

  parse_ipv6_nat64 :
      parse_ipv6 (codes "64:ff9b::" ++ quad_text a b c d)
      ≡ some (0 ∷ 0x64 ∷ 0xff ∷ 0x9b ∷ (zeros 8 ++ (a ∷ b ∷ c ∷ d ∷ [])))
  parse_ipv6_nat64 =
      parse_ipv6_stages (codes "64:ff9b::" ++ quad_text a b c d) (codes "64:ff9b::" ++ word_texts)
        (0x64 ∷ 0xff9b ∷ (zeros 4 ++ (high ∷ low ∷ [])))
        (before-Lacks b'%' _ (ground (arith, quad_text-NoZone))) (fold_quad_lem (codes "64:ff9b:"))
        nat64_words refl
      ∙ ap (λ t. some (0 ∷ 0x64 ∷ 0xff ∷ 0x9b ∷ (zeros 8 ++ t))) quad_bytes

-- An IPv4 address gets one class, whether it is written as a dotted quad, as an IPv4-mapped or as a
-- NAT64 address: no such text smuggles a private address past the guard. Node's net.isIPv4 is taken
-- to refuse a text that has a colon.
pub classify_address-quad_text :
    (is_ipv4 : List ℕ → Bool) (a b c d : ℕ)
    → ((s : List ℕ) → has b':' s ≡ true → is_ipv4 s ≡ false)
    → a < 256
    → b < 256
    → c < 256
    → d < 256
    → (classify_address is_ipv4 (quad_text a b c d) 4 ≡ classify_v4 (a ∷ b ∷ c ∷ d ∷ []))
      × (classify_address is_ipv4 (codes "::ffff:" ++ quad_text a b c d) 6
          ≡ classify_v4 (a ∷ b ∷ c ∷ d ∷ []))
      × (classify_address is_ipv4 (codes "64:ff9b::" ++ quad_text a b c d) 6
          ≡ classify_v4 (a ∷ b ∷ c ∷ d ∷ []))
unfolding classify_address classify_bytes is_mapped is_nat64 has nat_eq
classify_address-quad_text is_ipv4 a b c d colon ha hb hc hd = (
  simp (parse_ipv4-quad_text a b c d ha hb hc hd),
  rw (colon (codes "::ffff:" ++ quad_text a b c d) refl, parse_ipv6_mapped a b c d ha hb hc hd)
      refl,
  rw (colon (codes "64:ff9b::" ++ quad_text a b c d) refl, parse_ipv6_nat64 a b c d ha hb hc hd)
      refl,
)
