-- ===== src/UrlGuard/Quads.antt =====
-- Dotted quads: what parseIPv4 accepts, and that it reads back every address.
use tyo_mq.Prelude.{
  ℕ, suc, ◌+◌, ◌/◌, ◌%◌, ◌<◌, ◌≡◌, refl, Option, none, some, List, [], ◌∷◌, ◌++◌, length, ltb,
  if◌then◌else◌, arith, AllTrue, Bool, true, false, ◌≢◌, sym,
}
use tyo_mq.Prelude.Text.{Lacks, Lacks-append, split, split-append, split-Lacks}
use tyo_mq.UrlGuard.{is_digit, cons_all, octet, octets, parse_ipv4}

-- The decimal text of a byte.
unfoldable pub octet_text : ℕ → List ℕ
octet_text n =
    if ltb n 10
    then (b'0' + n) ∷ []
    else if ltb n 100
    then (b'0' + n / 10) ∷ (b'0' + n % 10) ∷ []
    else (b'0' + n / 100) ∷ (b'0' + n / 10 % 10) ∷ (b'0' + n % 10) ∷ []

-- The dotted quad of four bytes.
unfoldable pub quad_text : ℕ → ℕ → ℕ → ℕ → List ℕ
quad_text a b c d =
    octet_text a ++ (b'.' ∷ (octet_text b ++ (b'.' ∷ (octet_text c ++ (b'.' ∷ octet_text d)))))

abbrev pub is_byte : ℕ → Bool
is_byte n = ltb n 256

octet-octet_text : (n : ℕ) → n < 256 → octet (octet_text n) ≡ some n
unfolding octet octet_text
octet-octet_text n h = ground arith

octet_text-Lacks : (n sep : ℕ) → n < 256 → is_digit sep ≡ false → Lacks sep (octet_text n)
unfolding octet_text
octet_text-Lacks n sep h p = ground arith

pub quad_text-Lacks :
    (a b c d sep : ℕ)
    → a < 256
    → b < 256
    → c < 256
    → d < 256
    → is_digit sep ≡ false
    → sep ≢ b'.'
    → Lacks sep (quad_text a b c d)
unfolding quad_text
quad_text-Lacks a b c d sep ha hb hc hd p q =
    let last = octet_text-Lacks d sep hd p in
    let third =
      Lacks-append sep (octet_text c) _ (octet_text-Lacks c sep hc p) (λ e. q (sym e), last) in
    let second =
      Lacks-append sep (octet_text b) _ (octet_text-Lacks b sep hb p) (λ e. q (sym e), third) in
    Lacks-append sep (octet_text a) _ (octet_text-Lacks a sep ha p) (λ e. q (sym e), second)

split-quad_text :
    (a b c d : ℕ)
    → a < 256
    → b < 256
    → c < 256
    → d < 256
    → split b'.' (quad_text a b c d)
      ≡ octet_text a ∷ octet_text b ∷ octet_text c ∷ octet_text d ∷ []
unfolding quad_text
split-quad_text a b c d ha hb hc hd = rw (
  split-append b'.' (octet_text a) _ (octet_text-Lacks a b'.' ha refl),
  split-append b'.' (octet_text b) _ (octet_text-Lacks b b'.' hb refl),
  split-append b'.' (octet_text c) _ (octet_text-Lacks c b'.' hc refl),
  split-Lacks b'.' (octet_text d) (octet_text-Lacks d b'.' hd refl),
)

octets-octet_text :
    (a b c d : ℕ)
    → a < 256
    → b < 256
    → c < 256
    → d < 256
    → octets (octet_text a ∷ octet_text b ∷ octet_text c ∷ octet_text d ∷ [])
      ≡ some (a ∷ b ∷ c ∷ d ∷ [])
unfolding octets cons_all
octets-octet_text a b c d ha hb hc hd =
    simp
      (octet-octet_text a ha, octet-octet_text b hb, octet-octet_text c hc, octet-octet_text d hd)

-- The dotted quad of four bytes is parsed to these bytes.
pub parse_ipv4-quad_text :
    (a b c d : ℕ)
    → a < 256
    → b < 256
    → c < 256
    → d < 256
    → parse_ipv4 (quad_text a b c d) ≡ some (a ∷ b ∷ c ∷ d ∷ [])
unfolding parse_ipv4
parse_ipv4-quad_text a b c d ha hb hc hd =
    rw (split-quad_text a b c d ha hb hc hd) (ground (arith, octets-octet_text a b c d ha hb hc hd))

octet-IsByte : (part : List ℕ) (n : ℕ) → octet part ≡ some n → is_byte n ≡ true
unfolding octet
octet-IsByte part n h = ground arith

-- Numbers that pass a test are pushed onto numbers that do.
pub cons_all-AllTrue :
    (p : ℕ → Bool) (k : ℕ) (x : Option ℕ) (xs : Option (List ℕ)) (ns : List ℕ)
    → ((n : ℕ) → x ≡ some n → p n ≡ true)
    → ((ms : List ℕ) → xs ≡ some ms → (length ms ≡ k) × AllTrue p ms)
    → cons_all x xs ≡ some ns
    → (length ns ≡ suc k) × AllTrue p ns
unfolding cons_all
cons_all-AllTrue p k none xs ns one rest h = ground arith
cons_all-AllTrue p k (some n) none ns one rest h = ground arith
cons_all-AllTrue p k (some n) (some ms) ns one rest h = ground (arith, one n refl, rest ms refl)

octets_bytes :
    (parts : List (List ℕ)) (ns : List ℕ)
    → octets parts ≡ some ns
    → (length ns ≡ length parts) × AllTrue is_byte ns
unfolding octets cons_all
octets_bytes [] ns h = ground arith
octets_bytes (part ∷ parts) ns h =
    cons_all-AllTrue is_byte (length parts) (octet part) (octets parts) ns (octet-IsByte part)
      (octets_bytes parts) h

-- What is parsed is four bytes.
pub parse_ipv4_bytes :
    (s ns : List ℕ) → parse_ipv4 s ≡ some ns → (length ns ≡ 4) × AllTrue is_byte ns
unfolding parse_ipv4
parse_ipv4_bytes s ns h = ground (arith, octets_bytes (split b'.' s) ns)
