-- ===== src/Prekeys/Pool.antt =====
-- The one-time prekeys: handed out once each, in order, and never across identity keys.
use tyo_mq.Prelude.{
  ℕ, zero, suc, ◌-◌, String, Option, none, some, List, [], ◌∷◌, ◌++◌, map, ◌≡◌, ◌≢◌, refl, ap, ◌∙◌,
  length, take, drop, ==_refl, string_eq, arith,
}
use tyo_mq.Prelude.Dict
use tyo_mq.Prelude.Dict.{Dict}
use tyo_mq.Prekeys.{
  OneTime, Bundle, consume_one_time, Directory, Taken, not_found, found, take_from, prekey_take,
}

-- The pool of an identity, empty if it has no bundle.
abbrev pub pool : Directory → String → List OneTime
pool d identity = elim (Dict.lookup identity d) [ none ↦ [] | some bundle ↦ bundle.one_time ]

-- What `n` takes hand out.
unfoldable pub takes : ℕ → Directory → String → Directory × List Taken
takes zero d identity = (d, [])
takes (suc n) d identity =
    let (d', taken, calls) = prekey_take d identity in
    let (d'', rest) = takes n d' identity in (d'', taken ∷ rest)

-- What a take hands out: no bundle, or a bundle with or without a one-time prekey.
abbrev pub handed : Taken → Option (Option OneTime)
handed not_found = none
handed (found bundle one) = some one

-- So many bundles without a one-time prekey.
abbrev pub bundles_only : ℕ → List (Option (Option OneTime))
bundles_only zero = []
bundles_only (suc n) = some none ∷ bundles_only n

take-nil : (n : ℕ) → take {A = OneTime} n [] ≡ []
take-nil zero = refl
take-nil (suc n) = refl

drop-nil : (n : ℕ) → drop {A = OneTime} n [] ≡ []
drop-nil zero = refl
drop-nil (suc n) = refl

no_takes :
    (ones : List OneTime)
    → [] ≡ map (λ one. some (some one)) (take 0 ones) ++ bundles_only (0 - length ones)
no_takes ones = let none_left : 0 - length ones ≡ 0 = omega arith in rw none_left refl

module _ (identity : String) where
  prekey_take-some :
      (d : Directory) (bundle : Bundle)
      → identity ≢ ""
      → Dict.lookup identity d ≡ some bundle
      → bundle.identity_key ≢ ""
      → prekey_take d identity ≡ take_from d identity bundle bundle.one_time
  unfolding prekey_take
  prekey_take-some d bundle named e keyed = ground (arith, named, e, keyed)

  -- The directory still holds a usable bundle of the identity, with this pool.
  abbrev pub Offers : Directory → List OneTime → Type 0
  Offers d ones =
      (bundle : Bundle) × (Dict.lookup identity d ≡ some bundle)
      × (bundle.identity_key ≢ "")
      × (bundle.one_time ≡ ones)

  prekey_take-empty :
      (d : Directory)
      → identity ≢ ""
      → Offers d []
      → (bundle : Bundle) × (prekey_take d identity ≡ (d, found bundle none, []))
  unfolding take_from
  prekey_take-empty d named (bundle, e, keyed, ones) =
      (bundle, prekey_take-some d bundle named e keyed ∙ rw ones refl)

  prekey_take-cons :
      (d : Directory) (first : OneTime) (rest : List OneTime)
      → identity ≢ ""
      → Offers d (first ∷ rest)
      → (d' : Directory) × (bundle : Bundle) × (prekey_take d identity
          ≡ (d', found bundle (some first), consume_one_time identity first.id ∷ []))
        × Offers d' rest
  unfolding take_from
  prekey_take-cons d first rest named (bundle, e, keyed, ones) =
      let bundle' = record bundle { one_time = rest } in
      let d' = Dict.insert identity bundle' d in
      (
        d',
        bundle',
        prekey_take-some d bundle named e keyed ∙ rw ones refl,
        (
          bundle',
          Dict.lookup-insert identity identity bundle' d ∙ rw (==_refl identity) refl,
          keyed,
          refl,
        ),
      )

  -- As long as nothing is published, takes of an identity with a usable bundle hand out a bundle each: first with its
  -- one-time prekeys in order, each once, and without one as soon as the pool is empty. What was not handed out
  -- stays in the pool.
  pub takes_lem :
      (n : ℕ) (d : Directory) (ones : List OneTime)
      → identity ≢ ""
      → Offers d ones
      → (map handed (takes n d identity).1
          ≡ map (λ one. some (some one)) (take n ones) ++ bundles_only (n - length ones))
        × Offers (takes n d identity).0 (drop n ones)
  unfolding takes
  takes_lem zero d ones named offers = (no_takes ones, offers)
  takes_lem (suc n) d [] named offers =
      let (bundle, e) = prekey_take-empty d named offers in
      let (h, o) = takes_lem n d [] named offers in
      let nothing : map (λ one. some (some one)) (take {A = OneTime} n []) ≡ [] =
        ap (map (λ one. some (some one))) (take-nil n) in
      let all : n - 0 ≡ n = omega arith in
      let rest : map handed (takes n d identity).1 ≡ bundles_only n =
        h ∙ ap (λ t. t ++ bundles_only (n - 0)) nothing ∙ ap bundles_only all in
      let every : suc n - 0 ≡ suc n = omega arith in
      rw (e, every) (ap (λ t. some none ∷ t) rest, rw (← drop-nil n) o)
  takes_lem (suc n) d (first ∷ rest) named offers =
      let (d', bundle, e, offers') = prekey_take-cons d first rest named offers in
      let (h, o) = takes_lem n d' rest named offers' in
      let fewer : suc n - suc (length rest) ≡ n - length rest = omega arith in
      rw (e, fewer) (ap (λ t. some (some first) ∷ t) h, o)
