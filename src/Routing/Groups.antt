-- ===== src/Routing/Groups.antt =====
-- A message reaches a group once.
use tyo_mq.Prelude.{
  ◌≢◌, ℕ, zero, suc, ◌+◌, ◌≤◌, ◌≡◌, refl, ap, ◌∙◌, Bool, true, none, some, List, [], ◌∷◌, ◌++◌,
  ◌&&◌, not, if◌then◌else◌, ◌==◌, ==_refl, codes_eq, arith, filter, length, length-append,
  filter-append, Bool-cases, Option-cases, inl, inr,
}
use tyo_mq.Prelude.Dict
use tyo_mq.Prelude.Dict.{
  Dict, NodupKeys, AllEntries, insert-AllEntries, lookup-AllEntries, insert-NodupKeys,
}
use tyo_mq.Routing.{
  Name, Protocol, Realm, Options, Member, Delivery, Bucket, bucket_key, add_member, is_online,
  deliver, dispatch, dispatch_all, candidates, or_all, nth, pick, deliver_picked, serve, serve_all,
  matched, generate_message, throws,
}
use tyo_mq.Routing.Relay.{receiver}

-- A member of the group with this key.
abbrev pub belongs : Name → Member → Bool
belongs key m = not (m.subscription.group == []) && bucket_key m == key

-- A delivery to a member of the group with this key.
abbrev pub goes_to : Name → Delivery → Bool
goes_to key d = belongs key (receiver d)

abbrev pub deliveries_to : Name → List Delivery → ℕ
deliveries_to key ds = length (filter (goes_to key) ds)

-- All members are in the group with this key.
all_belong : Name → List Member → Bool
all_belong key [] = true
all_belong key (m ∷ ms) = belongs key m && all_belong key ms

abbrev is_sorted : Name → Bucket → Bool
is_sorted key b = all_belong key b.members

all_belong-concat :
    (key : Name) (ms : List Member) (m : Member)
    → all_belong key ms ≡ true
    → belongs key m ≡ true
    → all_belong key (ms ++ (m ∷ [])) ≡ true
unfolding all_belong
all_belong-concat key [] m h h' = ground (arith, h')
all_belong-concat key (x ∷ ms) m h h' = ground (arith, all_belong-concat key ms m)

all_belong-filter :
    (key : Name) (p : Member → Bool) (ms : List Member)
    → all_belong key ms ≡ true
    → all_belong key (filter p ms) ≡ true
unfolding all_belong
all_belong-filter key p [] h = refl
all_belong-filter key p (m ∷ ms) h = ground (arith, all_belong-filter key p ms)

all_belong-nth :
    (key : Name) (n : ℕ) (ms : List Member) (m : Member)
    → all_belong key ms ≡ true
    → nth n ms ≡ some m
    → belongs key m ≡ true
unfolding all_belong
all_belong-nth key n [] m h e = ground arith
all_belong-nth key zero (x ∷ ms) m h e = ground arith
all_belong-nth key (suc n) (x ∷ ms) m h e = all_belong-nth key n ms m (ground arith) e

candidates_belong :
    (key : Name) (b : Bucket)
    → all_belong key b.members ≡ true
    → all_belong key (candidates b) ≡ true
unfolding candidates
candidates_belong key b h =
    choose (filter is_online b.members) (all_belong-filter key is_online b.members h)
  where
    choose :
        (ms : List Member) → all_belong key ms ≡ true → all_belong key (or_all ms b.members) ≡ true
    choose [] e = h
    choose (m ∷ ms) e = e

add_member_sorted :
    (m : Member) (buckets : Dict Name Bucket)
    → not (m.subscription.group == []) ≡ true
    → AllEntries is_sorted buckets
    → AllEntries is_sorted (add_member m buckets)
unfolding add_member all_belong
add_member_sorted m buckets g h =
    let own : belongs (bucket_key m) m ≡ true = ground (arith, g, ==_refl (bucket_key m)) in
    insert-AllEntries is_sorted (bucket_key m) _ buckets
      (elim (Option-cases (Dict.lookup (bucket_key m) buckets)) [
        | inl e ↦ rw e (ground (arith, own))
        | inr (b, e) ↦ rw e (
            all_belong-concat (bucket_key m) b.members m
              (lookup-AllEntries is_sorted (bucket_key m) b buckets h e) own)
      ])
      h

add_member-NodupKeys :
    (m : Member) (buckets : Dict Name Bucket) → NodupKeys buckets → NodupKeys (add_member m buckets)
unfolding add_member
add_member-NodupKeys m buckets n = insert-NodupKeys (bucket_key m) _ buckets n

deliveries_to-append :
    (key : Name) (xs ys : List Delivery)
    → deliveries_to key (xs ++ ys) ≡ deliveries_to key xs + deliveries_to key ys
deliveries_to-append key xs ys =
    ap length (filter-append (goes_to key) xs ys)
    ∙ length-append (filter (goes_to key) xs) (filter (goes_to key) ys)

-- A delivery to a member of the group in the realm.
abbrev pub is_in_group : Name → Name → Delivery → Bool
is_in_group realm group d = (receiver d).realm == realm && (receiver d).subscription.group == group

-- How many copies the group gets.
abbrev pub copies : Name → Name → List Delivery → ℕ
copies realm group ds = length (filter (is_in_group realm group) ds)

is_in_group_key :
    (realm group : Name) (d : Delivery)
    → group ≢ []
    → is_in_group realm group d ≡ true
    → goes_to (realm ++ (10 ∷ group)) d ≡ true
is_in_group_key realm group d ne h =
    let m = receiver d in
    let there : m.realm ≡ realm = ground (arith, h) in
    let inside : m.subscription.group ≡ group = ground (arith, h) in
    let key : bucket_key m ≡ realm ++ (10 ∷ group) =
      ap (λ r. r ++ (10 ∷ m.subscription.group)) there ∙ ap (λ g. realm ++ (10 ∷ g)) inside in
    ground (arith, key, inside, ne)

copies-le :
    (realm group : Name)
    → group ≢ []
    → (ds : List Delivery) → copies realm group ds ≤ deliveries_to (realm ++ (10 ∷ group)) ds
copies-le realm group ne [] = omega arith
copies-le realm group ne (d ∷ ds) =
    ground (arith, is_in_group_key realm group d ne, copies-le realm group ne ds)

module _ (options : Options) where
  deliver_once :
      (key : Name) (m : Member)
      → deliveries_to key (deliver options m) ≤ (if belongs key m then 1 else 0)
  unfolding deliver
  deliver_once key m = ground arith

  dispatch_sorted :
      (key : Name) (m : Member) (buckets : Dict Name Bucket)
      → NodupKeys buckets
      → AllEntries is_sorted buckets
      → NodupKeys (dispatch options m buckets).0
        × AllEntries is_sorted (dispatch options m buckets).0
        × (deliveries_to key (dispatch options m buckets).1 ≡ 0)
  unfolding dispatch
  dispatch_sorted key m buckets n h = elim (Bool-cases (not (m.subscription.group == []))) [
    | inl grouped ↦ elim (Bool-cases options.relay) [
      | inl relayed ↦ rw (grouped, relayed) (n, h, refl)
      | inr own ↦
          rw (grouped, own)
            (add_member-NodupKeys m buckets n, add_member_sorted m buckets grouped h, refl)
    ]
    | inr single ↦
        let none_here : deliveries_to key (deliver options m) ≡ 0 =
          ground (arith, single, deliver_once key m) in
        elim (Bool-cases (options.relay && m.socket == [])) [
          | inl skipped ↦ rw (single, skipped) (n, h, refl)
          | inr served ↦ rw (single, served) (n, h, none_here)
        ]
  ]

  dispatch_all_sorted :
      (key : Name) (ms : List Member) (buckets : Dict Name Bucket)
      → NodupKeys buckets
      → AllEntries is_sorted buckets
      → NodupKeys (dispatch_all options ms buckets).0
        × AllEntries is_sorted (dispatch_all options ms buckets).0
        × (deliveries_to key (dispatch_all options ms buckets).1 ≡ 0)
  unfolding dispatch_all
  dispatch_all_sorted key [] buckets n h = (n, h, refl)
  dispatch_all_sorted key (m ∷ ms) buckets n h =
      let (n', h', here) = dispatch_sorted key m buckets n h in
      let (n'', h'', rest) = dispatch_all_sorted key ms (dispatch options m buckets).0 n' h' in
      let both =
        deliveries_to-append key (dispatch options m buckets).1
          (dispatch_all options ms (dispatch options m buckets).0).1 in
      elim (Bool-cases (throws (dispatch options m buckets).1)) [
        | inl ended ↦ rw ended (n', h', here)
        | inr on ↦ rw on (n'', h'', omega (arith, both, here, rest))
      ]

  picked_once :
      (key k : Name) (ms : List Member) (counter : ℕ)
      → all_belong k ms ≡ true
      → deliveries_to key (deliver_picked options (pick counter ms)) ≤ (if key == k then 1 else 0)
  unfolding pick
  picked_once key k ms counter h = elim (Option-cases (pick counter ms)) [
    | inl e ↦ rw (e, pick) (omega arith)
    | inr (m, e) ↦
        let own = all_belong-nth k _ ms m h e in
        rw (e, pick) (ground (arith, own, deliver_once key m))
  ]

  serve_once :
      (key k : Name) (b : Bucket) (realms : Dict Name Realm)
      → is_sorted k b ≡ true
      → deliveries_to key (serve options b realms).1 ≤ (if key == k then 1 else 0)
  unfolding serve
  serve_once key k b realms h = picked_once key k (candidates b) _ (candidates_belong k b h)

  serve_all_once :
      (key : Name) (bs : Dict Name Bucket) (realms : Dict Name Realm)
      → NodupKeys bs
      → AllEntries is_sorted bs
      → deliveries_to key (serve_all options bs realms).1
        ≤ elim (Dict.lookup key bs) [ none ↦ 0 | some _ ↦ 1 ]
  unfolding serve_all Dict.lookup
  serve_all_once key [] realms n h = omega arith
  serve_all_once key ((k, b) ∷ bs) realms (fresh, n) (s, h) =
      let realms' = (serve options b realms).0 in
      let here = serve_once key k b realms s in
      let rest = serve_all_once key bs realms' n h in
      let both =
        deliveries_to-append key (serve options b realms).1 (serve_all options bs realms').1 in
      ground (arith, fresh, here, rest, both)

  once_by_key :
      (protocol : Protocol) (realms : Dict Name Realm) (rid event producer key : Name)
      → deliveries_to key (generate_message protocol options realms rid event producer).1 ≤ 1
  unfolding generate_message
  once_by_key protocol realms rid event producer key =
      let ms = matched protocol event producer realms rid in
      let (n, sorted, direct) = dispatch_all_sorted key ms [] tt tt in
      let bs = (dispatch_all options ms []).0 in
      let picked = serve_all_once key bs realms n sorted in
      let one : elim (Dict.lookup key bs) [ none ↦ 0 | some _ ↦ 1 ] ≤ 1 = ground arith in
      let both =
        deliveries_to-append key (dispatch_all options ms []).1 (serve_all options bs realms).1 in
      elim (Bool-cases (throws (dispatch_all options ms []).1)) [
        | inl ended ↦ rw ended (omega (arith, direct))
        | inr on ↦ rw on (omega (arith, direct, picked, one, both))
      ]

  -- A message is delivered to each consumer group of each realm at most once, where a delivery that
  -- ends in an error counts.
  pub generate_message_once :
      (protocol : Protocol) (realms : Dict Name Realm) (rid event producer realm group : Name)
      → group ≢ []
      → copies realm group (generate_message protocol options realms rid event producer).1 ≤ 1
  generate_message_once protocol realms rid event producer realm group ne =
      let sent = (generate_message protocol options realms rid event producer).1 in
      omega (
        arith,
        copies-le realm group ne sent,
        once_by_key protocol realms rid event producer (realm ++ (10 ∷ group)),
      )
