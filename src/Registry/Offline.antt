-- ===== src/Registry/Offline.antt =====
-- Which entries a disconnect takes offline.
use tyo_mq.Prelude.{
  ℕ, String, Bool, true, false, Option, none, some, List, [], ◌∷◌, ◌≡◌, refl, ap, ◌∙◌, sym, inl,
  inr, if◌then◌else◌, ◌==◌, ==_refl, eq_of_==, string_eq, arith, Bool-cases, Option-cases,
}
use tyo_mq.Prelude.Dict
use tyo_mq.Prelude.Dict.{Dict, NodupKeys}
use tyo_mq.Registry.{
  Meta, Realm, new_meta, ensure, socket_of, notify, holds, take_offline, first_holder,
  tell_consumers, tell_producers, disconnect,
}

ensure-socket_of :
    (name j : String) (d : Dict String Meta)
    → socket_of (Dict.lookup j (ensure name d)) ≡ socket_of (Dict.lookup j d)
unfolding ensure
ensure-socket_of name j d = elim (Option-cases (Dict.lookup name d)) [
  | inr (m, e) ↦ rw (e, ensure) refl
  | inl e ↦
      let set = Dict.lookup-insert j name new_meta d in
      elim (Bool-cases (j == name)) [
        | inl f ↦ let same = eq_of_== j name f in ground (arith, e, set, f, same)
        | inr f ↦ ground (arith, e, set, f)
      ]
]

notify-socket_of :
    (peers : List String) (producer consumer : Option String) (d : Dict String Meta) (j : String)
    → socket_of (Dict.lookup j (notify peers producer consumer d).0) ≡ socket_of (Dict.lookup j d)
unfolding notify
notify-socket_of [] producer consumer d j = refl
notify-socket_of (peer ∷ peers) producer consumer d j =
    notify-socket_of peers producer consumer (ensure peer d) j ∙ ensure-socket_of peer j d

abbrev is_named : String → Option (String × Meta) → Bool
is_named name none = false
is_named name (some (first, m)) = first == name

-- The name is that of the first entry with the socket.
unfoldable pub is_first : String → String → Dict String Meta → Bool
is_first socket name d = is_named name (first_holder socket d)

module _ (socket name key : String) (m : Meta) (d : Dict String Meta) where
  is_first-true : holds socket m ≡ true → is_first socket name ((key, m) ∷ d) ≡ (key == name)
  unfolding is_first first_holder
  is_first-true h =
      ap (λ (b : Bool). is_named name (if b then some (key, m) else first_holder socket d)) h

  is_first-false :
      holds socket m ≡ false → is_first socket name ((key, m) ∷ d) ≡ is_first socket name d
  unfolding is_first first_holder
  is_first-false h =
      ap (λ (b : Bool). is_named name (if b then some (key, m) else first_holder socket d)) h

apart : (name key : String) → (name == key) ≡ false → (key == name) ≡ false
apart name key f = ground (arith, f)

is_first-none :
    (socket name : String) (d : Dict String Meta)
    → Dict.lookup name d ≡ none
    → is_first socket name d ≡ false
unfolding Dict.lookup is_first first_holder
is_first-none socket name [] e = refl
is_first-none socket name ((key, m) ∷ d) e = elim (Bool-cases (name == key)) [
  | inl f ↦ absurd (ground (arith, e, f))
  | inr f ↦
      let ih = is_first-none socket name d (ground (arith, e, f)) in
      elim (Bool-cases (holds socket m)) [
        | inl h ↦ is_first-true socket name key m d h ∙ apart name key f
        | inr h ↦ is_first-false socket name key m d h ∙ ih
      ]
]

take_offline-socket_of :
    (socket name : String) (now : ℕ) (d : Dict String Meta)
    → NodupKeys d
    → socket_of (Dict.lookup name (take_offline socket now d))
      ≡ (if is_first socket name d then none else socket_of (Dict.lookup name d))
unfolding take_offline Dict.lookup is_first first_holder
take_offline-socket_of socket name now [] n = refl
take_offline-socket_of socket name now ((key, m) ∷ d) (fresh, n) =
    let ih = take_offline-socket_of socket name now d n in
    elim (Bool-cases (holds socket m)) [
      | inl h ↦ rw (is_first-true socket name key m d h) (
          rw h (elim (Bool-cases (name == key)) [
            | inl f ↦
                let same = eq_of_== name key f in
                let back : (key == name) ≡ true =
                  ap (λ (k : String). k == name) (sym same) ∙ ==_refl name in
                rw f (rw back refl)
            | inr f ↦ rw f (rw (apart name key f) refl)
          ]))
      | inr h ↦ rw (is_first-false socket name key m d h) (
          rw h (elim (Bool-cases (name == key)) [
            | inl f ↦
                let same = eq_of_== name key f in
                let gone : Dict.lookup name d ≡ none =
                  ap (λ (k : String). Dict.lookup k d) same ∙ fresh in
                rw f (rw (is_first-none socket name d gone) refl)
            | inr f ↦ rw f ih
          ]))
    ]

insert-first_holder :
    (socket name : String) (d : Dict String Meta)
    → Dict.lookup name d ≡ none
    → first_holder socket (Dict.insert name new_meta d) ≡ first_holder socket d
unfolding first_holder Dict.lookup Dict.insert
insert-first_holder socket name [] e = refl
insert-first_holder socket name ((key, m) ∷ d) e = elim (Bool-cases (name == key)) [
  | inl f ↦ absurd (ground (arith, e, f))
  | inr f ↦
      let ih = insert-first_holder socket name d (ground (arith, e, f)) in
      rw f (ap (λ (x : Option (String × Meta)). if holds socket m then some (key, m) else x) ih)
]

ensure-first_holder :
    (socket name : String) (d : Dict String Meta)
    → first_holder socket (ensure name d) ≡ first_holder socket d
unfolding ensure
ensure-first_holder socket name d = elim (Option-cases (Dict.lookup name d)) [
  | inr (m, e) ↦ rw (e, ensure) refl
  | inl e ↦ rw (e, ensure) (insert-first_holder socket name d e)
]

ensure-NodupKeys : (name : String) (d : Dict String Meta) → NodupKeys d → NodupKeys (ensure name d)
unfolding ensure
ensure-NodupKeys name d n = elim (Option-cases (Dict.lookup name d)) [
  | inr (m, e) ↦ rw (e, ensure) n
  | inl e ↦ rw (e, ensure) (Dict.insert-NodupKeys name new_meta d n)
]

notify-first_holder :
    (socket : String) (peers : List String) (producer consumer : Option String)
    (d : Dict String Meta)
    → first_holder socket (notify peers producer consumer d).0 ≡ first_holder socket d
unfolding notify
notify-first_holder socket [] producer consumer d = refl
notify-first_holder socket (peer ∷ peers) producer consumer d =
    notify-first_holder socket peers producer consumer (ensure peer d)
    ∙ ensure-first_holder socket peer d

notify-NodupKeys :
    (peers : List String) (producer consumer : Option String) (d : Dict String Meta)
    → NodupKeys d
    → NodupKeys (notify peers producer consumer d).0
unfolding notify
notify-NodupKeys [] producer consumer d n = n
notify-NodupKeys (peer ∷ peers) producer consumer d n =
    notify-NodupKeys peers producer consumer (ensure peer d) (ensure-NodupKeys peer d n)

tell_consumers-socket_of :
    (socket name : String) (now : ℕ) (first : Option (String × Meta)) (d : Dict String Meta)
    → NodupKeys d
    → socket_of (Dict.lookup name (take_offline socket now (tell_consumers first d).0))
      ≡ (if is_first socket name d then none else socket_of (Dict.lookup name d))
unfolding tell_consumers is_first
tell_consumers-socket_of socket name now none d n = take_offline-socket_of socket name now d n
tell_consumers-socket_of socket name now (some (by, m)) d n =
    let d' = (notify m.peers (some by) none d).0 in
    take_offline-socket_of socket name now d' (notify-NodupKeys m.peers (some by) none d n)
    ∙ rw
        (
          notify-first_holder socket m.peers (some by) none d,
          notify-socket_of m.peers (some by) none d name,
        )
        refl

tell_producers-socket_of :
    (first : Option (String × Meta)) (producer : Option String) (d : Dict String Meta)
    (name : String)
    → socket_of (Dict.lookup name (tell_producers first producer d).0)
      ≡ socket_of (Dict.lookup name d)
unfolding tell_producers
tell_producers-socket_of none producer d name = refl
tell_producers-socket_of (some (by, m)) producer d name =
    notify-socket_of m.peers producer (some by) d name

-- A disconnect takes the first producer and the first consumer with the socket offline, and no other: every other name keeps its
-- socket, also one that has the same socket.
pub disconnect_lem :
    (r : Realm) (socket name : String) (now : ℕ)
    → NodupKeys r.producers
    → NodupKeys r.consumers
    → (socket_of (Dict.lookup name (disconnect r socket now).0.producers) ≡ (
        if is_first socket name r.producers
        then none
        else socket_of (Dict.lookup name r.producers)))
      × (socket_of (Dict.lookup name (disconnect r socket now).0.consumers) ≡ (
          if is_first socket name r.consumers
          then none
          else socket_of (Dict.lookup name r.consumers)))
unfolding disconnect
disconnect_lem r socket name now n n' =
    let first = first_holder socket r.producers in
    let told = tell_consumers first r.consumers in
    (
      tell_producers-socket_of (first_holder socket told.0) told.2
            (take_offline socket now r.producers) name
          ∙ take_offline-socket_of socket name now r.producers n,
      tell_consumers-socket_of socket name now first r.consumers n',
    )
