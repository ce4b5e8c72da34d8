-- ===== src/Routing/Reach/Matching.antt =====
-- The subscriptions that a message is for.
use tyo_mq.Prelude.{
  ◌≡◌, ◌⊎◌, refl, ap, sym, ◌∙◌, eq_of_==, true, false, some, List, [], ◌∷◌, ◌++◌, ◌||◌, ◌==◌,
  codes_eq, contains, arith, In, In-append_left, In-append_right, Bool-cases, inl, inr,
}
use tyo_mq.Prelude.Dict
use tyo_mq.Prelude.Dict.{Dict}
use tyo_mq.Topics.{topic_matches}
use tyo_mq.Routing.{
  Name, Protocol, Subscription, Realm, Member, realm_all, consumer_of, subscriptions_of, listens,
  exact_members, all_members, plain_members, pattern_members, matched,
}

In-contains : (x : Name) (xs : List Name) → In x xs → contains xs x ≡ true
In-contains x [] i = elim i [ ]
In-contains x (y ∷ xs) (inl e) = ground (arith, e)
In-contains x (y ∷ xs) (inr i) = ground (arith, In-contains x xs i)

-- The member for a subscription in a realm.
abbrev pub at : Name → Realm → Name → Subscription → Member
at target r ev sub = record {
  realm = target;
  event = ev;
  subscription = sub;
  socket = (consumer_of r sub.name).socket;
}

module _ (protocol : Protocol) (event producer : Name) where
  -- The three names that a subscription to an event can have: of this producer, to all its events, or
  -- of any producer.
  abbrev pub names : List Name
  names =
      protocol.to_consumer_event event producer
      ∷ protocol.to_consumer_event_all producer
      ∷ protocol.to_consumer_event event protocol.all_publishers
      ∷ []

  -- A subscription under one of the three names is for the message if its consumer listens to the
  -- producer or to all; one under another name, if its pattern matches the event.
  pub data IsFor (r : Realm) (ev : Name) (sub : Subscription) : Type 0 where
    by_name :
        {subs : Dict Name Subscription} (id : Name)
        → In ev names
        → Dict.lookup ev r.subscriptions ≡ some subs
        → In (id, sub) subs
        → In producer (consumer_of r sub.name).subscribe_tos
          ⊎ In protocol.all_publishers (consumer_of r sub.name).subscribe_tos
        → IsFor r ev sub
    by_pattern :
        {subs : Dict Name Subscription} (id pattern : Name)
        → In (ev, pattern) r.topic_patterns
        → contains names ev ≡ false
        → topic_matches pattern (protocol.lower event) ≡ true
        → Dict.lookup ev r.subscriptions ≡ some subs
        → In (id, sub) subs
        → IsFor r ev sub

  heard :
      (tos : List Name)
      → In producer tos ⊎ In protocol.all_publishers tos
      → (contains tos protocol.all_publishers || contains tos producer) ≡ true
  heard tos (inl i) = ground (arith, In-contains producer tos i)
  heard tos (inr i) = ground (arith, In-contains protocol.all_publishers tos i)

  module _ (rid : Name) (r : Realm) where
    In-exact_members :
        (ev id : Name) (sub : Subscription) (subs : Dict Name Subscription)
        → listens protocol event producer (consumer_of r sub.name) ≡ true
        → In (id, sub) subs
        → In (at rid r ev sub) (exact_members protocol event producer rid r ev subs)
    unfolding exact_members
    In-exact_members ev id sub [] hears i = elim i [ ]
    In-exact_members ev id sub ((k, s) ∷ subs) hears (inl e) =
        let same : sub ≡ s = ap (λ (p : Name × Subscription). p.1) e in
        rw (← same) (rw hears (inl refl))
    In-exact_members ev id sub ((k, s) ∷ subs) hears (inr i) =
        elim (Bool-cases (listens protocol event producer (consumer_of r s.name))) [
          | inl one ↦ rw one (inr (In-exact_members ev id sub subs hears i))
          | inr other ↦ rw other (In-exact_members ev id sub subs hears i)
        ]

    In-all_members :
        (ev id : Name) (sub : Subscription) (subs : Dict Name Subscription)
        → In (id, sub) subs
        → In (at rid r ev sub) (all_members protocol event producer rid r ev subs)
    unfolding all_members
    In-all_members ev id sub [] i = elim i [ ]
    In-all_members ev id sub ((k, s) ∷ subs) (inl e) =
        inl (ap (λ (p : Name × Subscription). at rid r ev p.1) e)
    In-all_members ev id sub ((k, s) ∷ subs) (inr i) = inr (In-all_members ev id sub subs i)

    In-plain_members :
        (m : Member) (ev : Name) (evs : List Name)
        → In ev evs
        → In m (exact_members protocol event producer rid r ev (subscriptions_of r ev))
        → In m (plain_members protocol event producer rid r evs)
    unfolding plain_members
    In-plain_members m ev [] i here = elim i [ ]
    In-plain_members m ev (x ∷ evs) (inl e) here =
        In-append_left m (exact_members protocol event producer rid r x (subscriptions_of r x))
          (plain_members protocol event producer rid r evs) (rw (← e) here)
    In-plain_members m ev (x ∷ evs) (inr i) here =
        In-append_right m _ _ (In-plain_members m ev evs i here)

    In-pattern_members :
        (m : Member) (ev pattern : Name) (patterns : Dict Name Name)
        → In (ev, pattern) patterns
        → contains names ev ≡ false
        → topic_matches pattern (protocol.lower event) ≡ true
        → In m (all_members protocol event producer rid r ev (subscriptions_of r ev))
        → In m (pattern_members protocol event producer rid r patterns)
    unfolding pattern_members
    In-pattern_members m ev pattern [] i new matches here = elim i [ ]
    In-pattern_members m ev pattern ((x, p) ∷ patterns) (inl e) new matches here =
        let same : ev ≡ x = ap (λ (q : Name × Name). q.0) e in
        let same' : pattern ≡ p = ap (λ (q : Name × Name). q.1) e in
        rw (← same, ← same') (rw (new, matches) (In-append_left m _ _ here))
    In-pattern_members m ev pattern ((x, p) ∷ patterns) (inr i) new matches here =
        let rest = In-pattern_members m ev pattern patterns i new matches here in
        elim (Bool-cases (contains names x)) [
          | inl plain ↦ rw plain rest
          | inr other ↦ elim (Bool-cases (topic_matches p (protocol.lower event))) [
            | inl hit ↦ rw (other, hit) (In-append_right m _ _ rest)
            | inr miss ↦ rw (other, miss) rest
          ]
        ]

  abbrev for_realm : Name → Realm → List Member
  for_realm target r =
      plain_members protocol event producer target r names
      ++ pattern_members protocol event producer target r r.topic_patterns

  In-for_realm :
      (target : Name) (r : Realm) (ev : Name) (sub : Subscription)
      → IsFor r ev sub
      → In (at target r ev sub) (for_realm target r)
  unfolding subscriptions_of listens
  In-for_realm target r ev sub (by_name {subs} id named there i hears) =
      let hears' : listens protocol event producer (consumer_of r sub.name) ≡ true =
        heard (consumer_of r sub.name).subscribe_tos hears in
      let own = In-exact_members target r ev id sub subs hears' i in
      In-append_left _ (plain_members protocol event producer target r names)
        (pattern_members protocol event producer target r r.topic_patterns)
        (In-plain_members target r (at target r ev sub) ev names named
          (rw (there, subscriptions_of) own))
  In-for_realm target r ev sub (by_pattern {subs} id pattern there new matches here i) =
      let own = In-all_members target r ev id sub subs i in
      In-append_right _ (plain_members protocol event producer target r names)
        (pattern_members protocol event producer target r r.topic_patterns)
        (In-pattern_members target r (at target r ev sub) ev pattern r.topic_patterns there new
          matches (rw (here, subscriptions_of) own))

  matched_own :
      (realms : Dict Name Realm) (rid target ev : Name) (r : Realm) (sub : Subscription)
      → target ≡ rid
      → Dict.lookup target realms ≡ some r
      → In (at target r ev sub) (for_realm target r)
      → In (at target r ev sub) (matched protocol event producer realms rid)
  unfolding matched
  matched_own realms rid target ev r sub same found own =
      rw (← same) (rw found (In-append_left _ (for_realm target r) _ own))

  matched_all :
      (realms : Dict Name Realm) (rid target ev : Name) (r : Realm) (sub : Subscription)
      → (rid == realm_all) ≡ false
      → target ≡ realm_all
      → Dict.lookup target realms ≡ some r
      → In (at target r ev sub) (for_realm target r)
      → In (at target r ev sub) (matched protocol event producer realms rid)
  unfolding matched
  matched_all realms rid target ev r sub other all found own =
      rw (other, ← all) (rw found (In-append_right _ _ (for_realm target r) own))

  -- Such a subscription is among the matched ones.
  pub matched_for :
      (realms : Dict Name Realm) (rid target ev : Name) (r : Realm) (sub : Subscription)
      → (target ≡ rid) ⊎ (target ≡ realm_all)
      → Dict.lookup target realms ≡ some r
      → IsFor r ev sub
      → In (at target r ev sub) (matched protocol event producer realms rid)
  matched_for realms rid target ev r sub there found for =
      let own = In-for_realm target r ev sub for in
      elim there [
        | inl same ↦ matched_own realms rid target ev r sub same found own
        | inr all ↦ elim (Bool-cases (rid == realm_all)) [
          | inl both ↦
              matched_own realms rid target ev r sub (all ∙ sym (eq_of_== rid realm_all both)) found
                own
          | inr other ↦ matched_all realms rid target ev r sub other all found own
        ]
      ]
