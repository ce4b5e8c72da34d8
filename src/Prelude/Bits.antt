-- ===== src/Prelude/Bits.antt =====
-- Masks on natural numbers.
use Prim.Native.Nat.{
  ℕ, zero, suc, ◌+◌, ◌*◌, ◌/◌, ◌%◌, ◌≤◌, ◌<◌, min, max, bit_and, bit_or, digits, bit_and-bitwise,
  bit_or-bitwise,
}
use mathlib.Core.Path.{◌≡◌, refl}
use mathlib.Core.Bool.{Bool, true, ◌&&◌}
use native.Mathlib.Omega.{arith}
use tyo_mq.Prelude.Equality.{nat_eq}

-- The test holds for each number below the bound.
unfoldable pub holds_below : ℕ → (ℕ → Bool) → Bool
holds_below zero test = true
holds_below (suc n) test = test n && holds_below n test

pub holds_below_at :
    (n : ℕ) (test : ℕ → Bool) → holds_below n test ≡ true → (x : ℕ) → x < n → test x ≡ true
unfolding holds_below
holds_below_at zero test h x lt = absurd (omega arith)
holds_below_at (suc n) test h x lt = ground (arith, holds_below_at n test _ x)

-- A mask bounds the result.
masked : ℕ → ℕ → ℕ → ℕ
masked fuel a b = digits (λ d. zero) min fuel a b

masked-le : (fuel a b : ℕ) → masked fuel a b ≤ b
unfolding masked
masked-le zero a b = omega arith
masked-le (suc fuel) zero b = omega arith
masked-le (suc fuel) (suc a) b = omega (arith, masked-le fuel (suc a / 2) (b / 2))

pub bit_and-le : (a b : ℕ) → bit_and a b ≤ b
unfolding masked
bit_and-le a b = omega (arith, bit_and-bitwise a b, masked-le a a b)

-- Fuel beyond the first number changes nothing.
masked_fuel : (f g a b : ℕ) → a ≤ f → a ≤ g → masked f a b ≡ masked g a b
unfolding masked
masked_fuel zero zero a b hf hg = refl
masked_fuel (suc f) zero zero b hf hg = refl
masked_fuel zero (suc g) zero b hf hg = refl
masked_fuel (suc f) (suc g) zero b hf hg = refl
masked_fuel (suc f) (suc g) (suc a) b hf hg =
    let rest = masked_fuel f g (suc a / 2) (b / 2) (omega arith) (omega arith) in
    omega (arith, rest)
masked_fuel zero g (suc a) b hf hg = absurd (omega arith)
masked_fuel (suc f) zero (suc a) b hf hg = absurd (omega arith)

-- The lowest digit and the digits above it are masked apart.
bit_and-half : (a b : ℕ) → bit_and a b ≡ 2 * bit_and (a / 2) (b / 2) + min (a % 2) (b % 2)
unfolding masked
bit_and-half zero b = omega (arith, bit_and-bitwise 0 b, bit_and-bitwise 0 (b / 2))
bit_and-half (suc a) b =
    let half = suc a / 2 in
    let rest = masked_fuel a half half (b / 2) (omega arith) (omega arith) in
    omega (arith, bit_and-bitwise (suc a) b, bit_and-bitwise half (b / 2), rest)

low_bit : (a : ℕ) → bit_and a 1 ≡ a % 2
low_bit a = omega (arith, bit_and-half a 1, bit_and-le (a / 2) 0)

low_three : (a : ℕ) → bit_and a 7 ≡ a % 8
low_three a = omega (arith, bit_and-half a 7, bit_and-half (a / 2) 3, low_bit (a / 2 / 2))

low_six : (a : ℕ) → bit_and a 63 ≡ a % 64
low_six a = omega (
  arith,
  bit_and-half a 63,
  bit_and-half (a / 2) 31,
  bit_and-half (a / 2 / 2) 15,
  low_three (a / 2 / 2 / 2),
)

pub low_byte : (a : ℕ) → bit_and a 0xff ≡ a % 256
low_byte a = omega (arith, bit_and-half a 255, bit_and-half (a / 2) 127, low_six (a / 2 / 2))

-- The union of two numbers' digits is no less than either.
joined : ℕ → ℕ → ℕ → ℕ
joined fuel a b = digits (λ d. d) max fuel a b

le-joined : (fuel a b : ℕ) → a ≤ fuel → (a ≤ joined fuel a b) × (b ≤ joined fuel a b)
unfolding joined
le-joined zero zero b h = omega arith
le-joined zero (suc a) b h = absurd (omega arith)
le-joined (suc fuel) zero b h = omega arith
le-joined (suc fuel) (suc a) b h = omega (arith, le-joined fuel (suc a / 2) (b / 2) (omega arith))

pub le-bit_or : (a b : ℕ) → (a ≤ bit_or a b) × (b ≤ bit_or a b)
unfolding joined
le-bit_or a b = omega (arith, bit_or-bitwise a b, le-joined a a b (omega arith))

pub bit_or-zero : bit_or 0 0 ≡ 0
bit_or-zero = refl

-- The three high bits of a byte.
pub high_three : (a : ℕ) → a < 256 → bit_and a 0xe0 ≡ a / 32 * 32
high_three a h = omega (
  arith,
  bit_and-half a 0xe0,
  bit_and-half (a / 2) 0x70,
  bit_and-half (a / 2 / 2) 0x38,
  bit_and-half (a / 2 / 2 / 2) 0x1c,
  bit_and-half (a / 2 / 2 / 2 / 2) 0xe,
  low_three (a / 2 / 2 / 2 / 2 / 2),
)

-- The seven high bits of a byte.
pub high_seven : (a : ℕ) → a < 256 → bit_and a 0xfe ≡ a / 2 * 2
high_seven a h = omega (arith, bit_and-half a 0xfe, bit_and-half (a / 2) 0x7f, low_six (a / 2 / 2))
