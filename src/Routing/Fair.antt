-- ===== src/Routing/Fair.antt =====
-- The turns of the members of a group.
use tyo_mq.Prelude.{
  ℕ, zero, suc, ◌+◌, ◌-◌, ◌%◌, ◌≤◌, ◌<◌, ◌≡◌, refl, ap, sym, ◌∙◌, Option, some, List, [], ◌∷◌, ◌++◌,
  map, length, take, drop, length-drop, arith, ==_refl, codes_eq,
}
use mathlib.Core.List.{map-append}
use native.Mathlib.Nat.{mod-add-mod, mod_self}
use tyo_mq.Prelude.Dict
use tyo_mq.Prelude.Dict.{Dict, lookup-insert}
use tyo_mq.Routing.{
  Name, Realm, Options, Member, Delivery, Bucket, nth, pick, candidates, counter_in, deliver,
  deliver_picked, serve,
}

-- The picks of so many turns after the counter stood at `c`.
picks : ℕ → ℕ → List Member → List (Option Member)
picks c zero ms = []
picks c (suc n) ms = pick (suc c) ms ∷ picks (suc c) n ms

picks-append :
    (c a b : ℕ) (ms : List Member) → picks c (a + b) ms ≡ picks c a ms ++ picks (c + a) b ms
unfolding picks
picks-append c zero b ms =
    let here : c + 0 ≡ c = omega arith in let all : 0 + b ≡ b = omega arith in rw (here, all) refl
picks-append c (suc a) b ms =
    let split : suc a + b ≡ suc (a + b) = omega arith in
    let on : c + suc a ≡ suc c + a = omega arith in
    rw (split, on) (ap (λ t. pick (suc c) ms ∷ t) (picks-append (suc c) a b ms))

drop-nth :
    (i n : ℕ) (ms : List Member)
    → i < length ms
    → nth i ms ∷ map some (take n (drop (suc i) ms)) ≡ map some (take (suc n) (drop i ms))
drop-nth i n [] h = absurd (omega arith)
drop-nth zero n (m ∷ ms) h = refl
drop-nth (suc i) n (m ∷ ms) h = drop-nth i n ms (omega arith)

take_all : (n : ℕ) (ms : List Member) → length ms ≤ n → take n ms ≡ ms
take_all zero [] h = refl
take_all zero (m ∷ ms) h = absurd (omega arith)
take_all (suc n) [] h = refl
take_all (suc n) (m ∷ ms) h = ap (λ t. m ∷ t) (take_all n ms (omega arith))

next_in_round : (c i k : ℕ) → c % k ≡ i → suc i < k → suc c % k ≡ suc i
next_in_round c i k at h = grind arith

-- Turns within one round take the members one after the other.
picks_round :
    (c i n : ℕ) (ms : List Member)
    → c % length ms ≡ i
    → i + n ≤ length ms
    → picks c n ms ≡ map some (take n (drop i ms))
unfolding picks pick
picks_round c i zero ms at h = refl
picks_round c i (suc zero) ms at h =
    let now : suc c - 1 ≡ c = omega arith in rw (now, at) (drop-nth i 0 ms (omega arith))
picks_round c i (suc (suc n)) ms at h =
    let now : suc c - 1 ≡ c = omega arith in
    let next : suc c % length ms ≡ suc i = next_in_round c i (length ms) at (omega arith) in
    rw (now, at, picks_round (suc c) (suc i) (suc n) ms next (omega arith))
      (drop-nth i (suc n) ms (omega arith))

-- From any counter on, as many turns as there are members give each member its turn once.
picks_full :
    (c : ℕ) (ms : List Member)
    → 0 < length ms
    → picks c (length ms) ms ≡ map some (drop (c % length ms) ms ++ take (c % length ms) ms)
picks_full c ms h =
    let k = length ms in
    let i = c % k in
    let inside : i < k = omega arith in
    let split : (k - i) + i ≡ k = omega arith in
    let join : i + (k - i) ≡ k = omega arith in
    let wrap : (c + (k - i)) % k ≡ 0 =
      sym (mod-add-mod c k (k - i)) ∙ ap (λ n. n % k) join ∙ mod_self k in
    let first = picks_round c i (k - i) ms refl (omega arith) in
    let second = picks_round (c + (k - i)) 0 i ms wrap (omega (arith, inside)) in
    let whole : take (k - i) (drop i ms) ≡ drop i ms =
      take_all (k - i) (drop i ms) (omega (arith, length-drop i ms)) in
    ap (λ n. picks c n ms) (sym split)
    ∙ picks-append c (k - i) i ms
    ∙ ap (λ t. t ++ picks (c + (k - i)) i ms) (first ∙ ap (map some) whole)
    ∙ ap (λ t. map some (drop i ms) ++ t) second
    ∙ sym (map-append some (drop i ms) (take i ms))

-- The deliveries of so many turns of one group, one message after the other.
unfoldable pub turns : Options → Bucket → Dict Name Realm → ℕ → List Delivery
turns options b realms zero = []
turns options b realms (suc n) =
    let (realms', here) = serve options b realms in here ++ turns options b realms' n

unfoldable pub deliver_each : Options → List Member → List Delivery
deliver_each options [] = []
deliver_each options (m ∷ ms) = deliver options m ++ deliver_each options ms

picked_each : Options → List (Option Member) → List Delivery
picked_each options [] = []
picked_each options (m ∷ ms) = deliver_picked options m ++ picked_each options ms

picked_each-map :
    (options : Options) (ms : List Member)
    → picked_each options (map some ms) ≡ deliver_each options ms
unfolding picked_each deliver_each
picked_each-map options [] = refl
picked_each-map options (m ∷ ms) = ap (λ t. deliver options m ++ t) (picked_each-map options ms)

lookup_inserted :
    {V : Type 0} (k : Name) (v : V) (d : Dict Name V) → Dict.lookup k (Dict.insert k v d) ≡ some v
lookup_inserted k v d = rw (lookup-insert k k v d, ==_refl k) refl

turns-picks :
    (options : Options) (b : Bucket) (realms : Dict Name Realm) (r : Realm) (n : ℕ)
    → Dict.lookup b.realm realms ≡ some r
    → turns options b realms n
      ≡ picked_each options (picks (counter_in (some r) b.group) n (candidates b))
unfolding turns picked_each picks serve
turns-picks options b realms r zero e = refl
turns-picks options b realms r (suc n) e =
    let c = counter_in (some r) b.group in
    let r' = record r { group_counters = Dict.insert b.group (suc c) r.group_counters } in
    let there : Dict.lookup b.realm (Dict.insert b.realm r' realms) ≡ some r' =
      lookup_inserted b.realm r' realms in
    let counted : counter_in (some r') b.group ≡ suc c =
      rw (lookup_inserted b.group (suc c) r.group_counters, counter_in) refl in
    rw e (
      ap (λ t. deliver_picked options (pick (suc c) (candidates b)) ++ t)
        (turns-picks options b (Dict.insert b.realm r' realms) r' n there
          ∙ ap (λ k. picked_each options (picks k n (candidates b))) counted))

-- While the members of a group and their connections stay the same, as many turns as it has candidates
-- pick each of them once, one after the other, wherever its counter stands: what the turns deliver is
-- what the candidates get, from the one at the counter around to the one before it. A turn in which the
-- delivery throws counts.
pub turns_lem :
    (options : Options) (b : Bucket) (realms : Dict Name Realm) (r : Realm)
    → Dict.lookup b.realm realms ≡ some r
    → 0 < length (candidates b)
    → turns options b realms (length (candidates b))
      ≡ deliver_each options (
          drop (counter_in (some r) b.group % length (candidates b)) (candidates b)
          ++ take (counter_in (some r) b.group % length (candidates b)) (candidates b))
turns_lem options b realms r e h =
    turns-picks options b realms r (length (candidates b)) e
    ∙ ap (picked_each options) (picks_full (counter_in (some r) b.group) (candidates b) h)
    ∙ picked_each-map options _
