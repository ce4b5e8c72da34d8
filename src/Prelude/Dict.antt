-- ===== src/Prelude/Dict.antt =====
-- `Map` and plain objects used as maps: entries in insertion order. A `set` on a present key keeps
-- its place.
use tyo_mq.Prelude.Equality.{Eq, ◌==◌, eq_of_==, if◌then◌else◌}
use tyo_mq.Prelude.Lists.{length, AllTrue}
use tyo_mq.Prelude.Tests.{Bool-cases}
use Prim.Native.Nat.{suc, ◌≤◌}
use mathlib.Core.Path.{◌≡◌, refl, sym, ap, ◌∙◌}
use mathlib.Core.Bool.{Bool, true, false}
use mathlib.Core.Logic.{inl, inr}
use mathlib.Core.Option.{Option, none, some}
use mathlib.Core.List.{List, [], ◌∷◌}
use native.Mathlib.Omega.{arith}

abbrev pub Dict {ℓ κ} : Type ℓ → Type κ → Type (ℓ ⊔ κ)
Dict K V = List (K × V)

unfoldable pub keep_if {ℓ} : {V : Type ℓ} → (V → Bool) → Option V → Option V
keep_if p none = none
keep_if p (some v) = if p v then some v else none

module _ {ℓ κ} {K : Type ℓ} {V : Type κ} where
  -- `map.forEach` that deletes the entries which fail the test.
  unfoldable pub retain : (K → V → Bool) → Dict K V → Dict K V
  retain p [] = []
  retain p ((k, v) ∷ d) = if p k v then (k, v) ∷ retain p d else retain p d

module _ {ℓ κ} {K : Type ℓ} {V : Type κ} ⦃e : Eq K⦄ where
  unfoldable pub lookup : K → Dict K V → Option V
  lookup k [] = none
  lookup k ((j, v) ∷ d) = if k == j then some v else lookup k d

  unfoldable pub insert : K → V → Dict K V → Dict K V
  insert k v [] = (k, v) ∷ []
  insert k v ((j, w) ∷ d) = if k == j then (j, v) ∷ d else (j, w) ∷ insert k v d

  unfoldable pub erase : K → Dict K V → Dict K V
  erase k [] = []
  erase k ((j, w) ∷ d) = if k == j then d else (j, w) ∷ erase k d

  -- No key is listed twice.
  abbrev pub NodupKeys : Dict K V → Type κ
  NodupKeys [] = Unit
  NodupKeys ((k, _) ∷ d) = (lookup k d ≡ none) × NodupKeys d

  pub lookup-insert :
      (j k : K) (v : V) (d : Dict K V)
      → lookup j (insert k v d) ≡ (if j == k then some v else lookup j d)
  unfolding insert lookup
  lookup-insert j k v [] = refl
  lookup-insert j k v (_ ∷ d) = ground (arith, lookup-insert j k v d)

  pub lookup-erase :
      (j k : K) (d : Dict K V)
      → NodupKeys d
      → lookup j (erase k d) ≡ (if j == k then none else lookup j d)
  unfolding erase lookup
  lookup-erase j k [] n = ground arith
  lookup-erase j k (_ ∷ d) (fresh, n) = ground (arith, lookup-erase j k d n)

  pub lookup-retain-none :
      (p : K → V → Bool) (j : K) (d : Dict K V) → lookup j d ≡ none → lookup j (retain p d) ≡ none
  unfolding lookup retain
  lookup-retain-none p j [] h = refl
  lookup-retain-none p j (_ ∷ d) h = ground (arith, lookup-retain-none p j d)

  pub lookup-retain :
      (p : K → V → Bool) (j : K) (d : Dict K V)
      → NodupKeys d
      → lookup j (retain p d) ≡ keep_if (p j) (lookup j d)
  unfolding lookup retain keep_if
  lookup-retain p j [] n = refl
  lookup-retain p j (_ ∷ d) (fresh, n) =
      ground (arith, lookup-retain p j d n, lookup-retain-none p j d)

  pub insert-NodupKeys : (k : K) (v : V) (d : Dict K V) → NodupKeys d → NodupKeys (insert k v d)
  unfolding insert lookup
  insert-NodupKeys k v [] n = (refl, tt)
  insert-NodupKeys k v ((j, _) ∷ d) (fresh, n) =
      ground (arith, insert-NodupKeys k v d n, lookup-insert j k v d)

  pub erase-NodupKeys : (k : K) (d : Dict K V) → NodupKeys d → NodupKeys (erase k d)
  unfolding erase
  erase-NodupKeys k [] n = tt
  erase-NodupKeys k ((j, _) ∷ d) (fresh, n) =
      ground (arith, erase-NodupKeys k d n, lookup-erase j k d n)

  pub retain-NodupKeys : (p : K → V → Bool) (d : Dict K V) → NodupKeys d → NodupKeys (retain p d)
  unfolding retain
  retain-NodupKeys p [] n = tt
  retain-NodupKeys p ((j, _) ∷ d) (fresh, n) =
      ground (arith, retain-NodupKeys p d n, lookup-retain-none p j d fresh)

  pub length-insert :
      (k : K) (v : V) (d : Dict K V)
      → length (insert k v d) ≡ elim (lookup k d) [ none ↦ suc (length d) | some _ ↦ length d ]
  unfolding insert lookup
  length-insert k v [] = refl
  length-insert k v (_ ∷ d) = ground (arith, length-insert k v d)

  pub length-erase :
      (k : K) (d : Dict K V)
      → length d
        ≡ elim (lookup k d) [ none ↦ length (erase k d) | some _ ↦ suc (length (erase k d)) ]
  unfolding erase lookup
  length-erase k [] = refl
  length-erase k (_ ∷ d) = ground (arith, length-erase k d)

module _ {ℓ κ} {K : Type ℓ} {V : Type κ} where
  pub length-retain-le : (p : K → V → Bool) (d : Dict K V) → length (retain p d) ≤ length d
  unfolding retain
  length-retain-le p [] = omega arith
  length-retain-le p (_ ∷ d) = ground (arith, length-retain-le p d)

module _ {K V : Type 0} ⦃e : Eq K⦄ (ok : K → V → Bool) where
  abbrev pub AllEntries : Dict K V → Type 0
  AllEntries d = AllTrue (λ (entry : K × V). ok entry.0 entry.1) d

  pub insert-AllEntries :
      (k : K) (v : V) (d : Dict K V) → ok k v ≡ true → AllEntries d → AllEntries (insert k v d)
  unfolding insert
  insert-AllEntries k v [] h a = (h, tt)
  insert-AllEntries k v ((j, w) ∷ d) h (b, a) = elim (Bool-cases (k == j)) [
    | inl same ↦ rw same (ap (λ i. ok i v) (sym (eq_of_== k j same)) ∙ h, a)
    | inr other ↦ rw other (b, insert-AllEntries k v d h a)
  ]

  pub erase-AllEntries : (k : K) (d : Dict K V) → AllEntries d → AllEntries (erase k d)
  unfolding erase
  erase-AllEntries k [] a = tt
  erase-AllEntries k (_ ∷ d) (b, a) = ground (arith, erase-AllEntries k d a)

  pub lookup-AllEntries :
      (k : K) (v : V) (d : Dict K V) → AllEntries d → lookup k d ≡ some v → ok k v ≡ true
  unfolding lookup
  lookup-AllEntries k v [] a h = absurd (cc (h))
  lookup-AllEntries k v ((j, w) ∷ d) (b, a) h = elim (Bool-cases (k == j)) [
    | inl same ↦ let e = eq_of_== k j same in ground (arith, e)
    | inr other ↦ lookup-AllEntries k v d a (ground (arith, other, h))
  ]

module _ {K V : Type 0} (ok : K → V → Bool) where
  pub retain-AllTrue :
      (keep : K → V → Bool) (d : Dict K V)
      → AllTrue (λ (entry : K × V). ok entry.0 entry.1) d
      → AllTrue (λ (entry : K × V). ok entry.0 entry.1) (retain keep d)
  unfolding retain
  retain-AllTrue keep [] a = tt
  retain-AllTrue keep (_ ∷ d) (b, a) = ground (arith, retain-AllTrue keep d a)

module _ {K V : Type 0} ⦃e : Eq K⦄ where
  -- Erasing a key leaves what another key has.
  pub lookup-erase-false :
      (j k : K) (d : Dict K V) → (j == k) ≡ false → lookup j (erase k d) ≡ lookup j d
  unfolding lookup erase
  lookup-erase-false j k [] other = refl
  lookup-erase-false j k ((i, _) ∷ d) other = elim (Bool-cases (k == i)) [
    | inl same ↦ let same' = eq_of_== k i same in rw (same, ← same', other) refl
    | inr differs ↦ let ih = lookup-erase-false j k d other in ground (arith, differs, ih)
  ]
