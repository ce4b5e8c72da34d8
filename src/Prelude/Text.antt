-- ===== src/Prelude/Text.antt =====
-- Texts as lists of UTF-16 code units, cut at a separator.
use Prim.Native.Nat.{ℕ, zero, suc, ◌+◌, ◌-◌, ◌*◌, ◌/◌, ◌%◌, ◌^◌, ◌<◌}
use Prim.Native.Char.{code}
use Prim.Native.String.{String}
use mathlib.Core.Path.{◌≡◌, refl, ap, ◌∙◌, sym}
use mathlib.Core.Bool.{Bool, true, false, ◌&&◌}
use mathlib.Core.Logic.{◌≢◌}
use mathlib.Core.Option.{Option, none, some}
use mathlib.Core.List.{List, [], ◌∷◌, ◌++◌, reverse, reverse-reverse, reverse-append}
use native.Mathlib.Omega.{arith}
use tyo_mq.Prelude.Equality.{if◌then◌else◌, ◌==◌, nat_eq}

-- The code units of a text in ASCII.
abbrev pub codes : String → List ℕ
codes String.[] = []
codes (String.◌∷◌ c s) = code c ∷ codes s

-- The code unit does not occur in the text.
abbrev pub Lacks : ℕ → List ℕ → Type 0
Lacks sep [] = Unit
Lacks sep (c ∷ cs) = (c ≢ sep) × Lacks sep cs

module _ (sep : ℕ) where
  not-Lacks : (xs ys : List ℕ) → ¬ Lacks sep (xs ++ (sep ∷ ys))
  not-Lacks [] ys h = h.0 refl
  not-Lacks (x ∷ xs) ys h = not-Lacks xs ys h.1

  -- The text before the first separator and the rest are determined by the whole.
  pub cut_first :
      (a b x y : List ℕ)
      → Lacks sep a
      → Lacks sep b
      → a ++ (sep ∷ x) ≡ b ++ (sep ∷ y)
      → (a ≡ b) × (x ≡ y)
  cut_first [] [] x y la lb e = (refl, cc)
  cut_first [] (b ∷ bs) x y la lb e = absurd (lb.0 (cc))
  cut_first (a ∷ r) [] x y la lb e = absurd (la.0 (cc))
  cut_first (a ∷ r) (b ∷ bs) x y la lb e =
      let (same, rest) = cut_first r bs x y la.1 lb.1 (cc) in (cc, rest)

  -- The text behind the last separator and what stands before it are determined by the whole.
  pub cut_last :
      (x y a b : List ℕ)
      → Lacks sep a
      → Lacks sep b
      → x ++ (sep ∷ a) ≡ y ++ (sep ∷ b)
      → (x ≡ y) × (a ≡ b)
  cut_last [] [] a b la lb e = (refl, cc)
  cut_last [] (y ∷ ys) a b la lb e =
      let e' : a ≡ ys ++ (sep ∷ b) = cc in absurd (not-Lacks ys b (rw e' at la))
  cut_last (x ∷ xs) [] a b la lb e =
      let e' : b ≡ xs ++ (sep ∷ a) = cc in absurd (not-Lacks xs a (rw e' at lb))
  cut_last (x ∷ xs) (y ∷ ys) a b la lb e =
      let (same, rest) = cut_last xs ys a b la lb (cc) in (cc, rest)

-- The decimal digits of a number, the lowest first, and none for 0. The first argument bounds their
-- number.
unfoldable pub digits : ℕ → ℕ → List ℕ
digits zero n = []
digits (suc f) n = let rest = digits f (n / 10) in if n == 0 then [] else (b'0' + n % 10) ∷ rest

digits_value : List ℕ → ℕ
digits_value [] = 0
digits_value (c ∷ cs) = (c - b'0') + 10 * digits_value cs

digits_value-digits : (f n : ℕ) → n < 10 ^ f → digits_value (digits f n) ≡ n
unfolding digits digits_value
digits_value-digits zero n h = omega arith
digits_value-digits (suc f) n h = ground (arith, digits_value-digits f (n / 10))

digits-Lacks : (f n sep : ℕ) → sep < b'0' → Lacks sep (digits f n)
unfolding digits
digits-Lacks zero n sep h = tt
digits-Lacks (suc f) n sep h = ground (arith, digits-Lacks f (n / 10) sep h)

pub Lacks-append : (sep : ℕ) (xs ys : List ℕ) → Lacks sep xs → Lacks sep ys → Lacks sep (xs ++ ys)
Lacks-append sep [] ys lx ly = ly
Lacks-append sep (x ∷ xs) ys lx ly = (lx.0, Lacks-append sep xs ys lx.1 ly)

Lacks-reverse : (sep : ℕ) (xs : List ℕ) → Lacks sep xs → Lacks sep (reverse xs)
Lacks-reverse sep [] l = tt
Lacks-reverse sep (x ∷ xs) l =
    rw (reverse-append (x ∷ []) xs)
      (Lacks-append sep (reverse xs) (x ∷ []) (Lacks-reverse sep xs l.1) (l.0, tt))

-- `String(n || '')` for a number below 10 ^ 21, which JavaScript writes without an exponent.
unfoldable pub decimal : ℕ → List ℕ
unfolding digits
decimal n = reverse (digits 21 n)

pub decimal-injective : (n m : ℕ) → n < 10 ^ 21 → m < 10 ^ 21 → decimal n ≡ decimal m → n ≡ m
unfolding decimal
decimal-injective n m hn hm e =
    let same : digits 21 n ≡ digits 21 m =
      sym (reverse-reverse (digits 21 n)) ∙ ap reverse e ∙ reverse-reverse (digits 21 m) in
    sym (digits_value-digits 21 n hn) ∙ ap digits_value same ∙ digits_value-digits 21 m hm

pub decimal-Lacks : (n sep : ℕ) → sep < b'0' → Lacks sep (decimal n)
unfolding decimal
decimal-Lacks n sep h = Lacks-reverse sep (digits 21 n) (digits-Lacks 21 n sep h)

-- The text at the front of the first part of a list of parts.
abbrev onto_first : ℕ → List (List ℕ) → List (List ℕ)
onto_first c [] = (c ∷ []) ∷ []
onto_first c (p ∷ ps) = (c ∷ p) ∷ ps

-- `text.split(sep)` for a separator of one code unit
unfoldable pub split : ℕ → List ℕ → List (List ℕ)
split sep [] = [] ∷ []
split sep (c ∷ cs) = let rest = split sep cs in if c == sep then [] ∷ rest else onto_first c rest

-- `text.split(sep + sep)`
unfoldable pub split_double : ℕ → List ℕ → List (List ℕ)
split_double sep [] = [] ∷ []
split_double sep (c ∷ []) = (c ∷ []) ∷ []
split_double sep (c ∷ d ∷ cs) =
    let after = split_double sep cs in
    let rest = split_double sep (d ∷ cs) in
    if c == sep && d == sep then [] ∷ after else onto_first c rest

-- The text before the first occurrence of a code unit, or the whole text.
unfoldable pub before : ℕ → List ℕ → List ℕ
before sep [] = []
before sep (c ∷ cs) = let rest = before sep cs in if c == sep then [] else c ∷ rest

-- `text.indexOf(c) >= 0`
unfoldable pub has : ℕ → List ℕ → Bool
has sep [] = false
has sep (c ∷ cs) = let rest = has sep cs in if c == sep then true else rest

-- The text up to the last occurrence of a code unit, that one included, and the text behind it.
unfoldable pub cut_at_last : ℕ → List ℕ → Option (List ℕ × List ℕ)
cut_at_last sep [] = none
cut_at_last sep (c ∷ cs) = elim (cut_at_last sep cs) [
  | some parts ↦ some (c ∷ parts.0, parts.1)
  | none ↦ if c == sep then some (c ∷ [], cs) else none
]

-- A part that lacks the separator is the first of the parts.
pub split-append :
    (sep : ℕ) (xs ys : List ℕ) → Lacks sep xs → split sep (xs ++ (sep ∷ ys)) ≡ xs ∷ split sep ys
unfolding split
split-append sep [] ys l = ground arith
split-append sep (x ∷ xs) ys l = ground (arith, split-append sep xs ys l.1)

pub split-Lacks : (sep : ℕ) (xs : List ℕ) → Lacks sep xs → split sep xs ≡ xs ∷ []
unfolding split
split-Lacks sep [] l = refl
split-Lacks sep (x ∷ xs) l = ground (arith, split-Lacks sep xs l.1)

pub before-Lacks : (sep : ℕ) (xs : List ℕ) → Lacks sep xs → before sep xs ≡ xs
unfolding before
before-Lacks sep [] l = refl
before-Lacks sep (x ∷ xs) l = ground (arith, before-Lacks sep xs l.1)

pub has-append : (sep : ℕ) (xs ys : List ℕ) → has sep (xs ++ (sep ∷ ys)) ≡ true
unfolding has
has-append sep [] ys = ground arith
has-append sep (x ∷ xs) ys = ground (arith, has-append sep xs ys)

pub cut_at_last-Lacks : (sep : ℕ) (xs : List ℕ) → Lacks sep xs → cut_at_last sep xs ≡ none
unfolding cut_at_last
cut_at_last-Lacks sep [] l = refl
cut_at_last-Lacks sep (x ∷ xs) l = simp (cut_at_last-Lacks sep xs l.1) (ground (arith, l.0))

pub cut_at_last-append :
    (sep : ℕ) (xs ys : List ℕ)
    → Lacks sep ys
    → cut_at_last sep (xs ++ (sep ∷ ys)) ≡ some (xs ++ (sep ∷ []), ys)
unfolding cut_at_last
cut_at_last-append sep [] ys l = simp (cut_at_last-Lacks sep ys l) (ground arith)
cut_at_last-append sep (x ∷ xs) ys l = simp (cut_at_last-append sep xs ys l)
