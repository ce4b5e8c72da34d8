-- ===== src/Prelude/Equality.antt =====
-- JavaScript's `===` on texts, numbers and lists of codes: types whose equality is decided.
use Prim.Native.Nat.{ℕ}
use Prim.Native.String.{String}
use mathlib.Core.Path.{◌≡◌}
use mathlib.Core.Logic.{ite, dite}
use mathlib.Core.Bool.{Bool, true, false, cond, Bool-discrete}
use mathlib.Core.List.{List, [], ◌∷◌}
use native.Mathlib.Decide.{ℕ_discrete}
use native.Mathlib.Omega.{arith}
use text.Mathlib.Text
use text.Mathlib.TextEquality.{eq_iff}

infix 1 if◌then◌else◌
abbrev pub if◌then◌else◌ {ℓ} : {A : Type ℓ} → Bool → A → A → A
if b then x else y = cond b x y

pub record Eq {ℓ} (A : Type ℓ) : Type ℓ where
  pub dec : Discrete A

module _ {ℓ} {A : Type ℓ} ⦃e : Eq A⦄ where
  infix 50 ◌==◌
  abbrev pub ◌==◌ : A → A → Bool
  a == b = ite (e.dec a b) true false

  -- The test answers exactly by equality.
  pub ==_refl : (a : A) → (a == a) ≡ true
  ==_refl a = ground arith

  pub eq_of_== : (a b : A) → (a == b) ≡ true → a ≡ b
  eq_of_== a b h = ground arith

  -- `list.indexOf(a) >= 0`, and `set.has(a)` on a set kept as a list.
  abbrev pub contains : List A → A → Bool
  contains [] a = false
  contains (x ∷ xs) a = if a == x then true else contains xs a

-- The instances stay shut in proofs, where a split on `s == t` yields the equation or its
-- negation.
instance unfoldable pub string_eq : Eq String
string_eq = record {
  dec = λ s t.
      dite (Bool-discrete (Text.◌==◌ s t) true) (λ same. yes ((eq_iff s t).0 same))
        (λ differ. no (λ p. differ ((eq_iff s t).1 p)));
}

instance unfoldable pub nat_eq : Eq ℕ
unfolding ℕ_discrete
nat_eq = record { dec = ℕ_discrete }

codes_discrete : Discrete (List ℕ)
codes_discrete = hlevel ℕ_discrete

-- A text as the list of its character codes.
instance unfoldable pub codes_eq : Eq (List ℕ)
unfolding codes_discrete ℕ_discrete
codes_eq = record { dec = codes_discrete }
