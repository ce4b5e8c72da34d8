-- ===== src/Limits/Connections/Exact.antt =====
-- The counts are those of the connected sockets, and new ones keep to the limit.
use tyo_mq.Prelude.{
  ℕ, suc, ◌-◌, max, ◌≤◌, ◌≡◌, ◌⊎◌, refl, ap, sym, ◌∙◌, true, false, some, List, [], ◌∷◌, leb,
  if◌then◌else◌, ◌==◌, ==_refl, codes_eq, nat_eq, contains, arith, Bool-cases, inl, inr,
}
use tyo_mq.Prelude.Dict
use tyo_mq.Prelude.Dict.{
  Dict, NodupKeys, lookup-insert, lookup-erase, insert-NodupKeys, erase-NodupKeys,
}
use tyo_mq.Limits.{max_connections_per_ip, Limits, enabled, value}
use tyo_mq.Limits.Checks.{
  Clock, Answer, allowed, denied, address_of, count_of, or_zero, reaches, connection_allowed,
  release_connection,
}
use tyo_mq.Limits.Connections.{
  Server, seat, enter, leave, without, sockets_of, Exact, IsExact, Event, connects, disconnects,
  run, stays_on, AllStayOn, limit_at,
}
use tyo_mq.Limits.Connections.Counted.{
  Counted, yes_counted, not_counted, connection_allowed-Counted, config-connections,
  enabled-connections,
}

pos-sockets_of :
    (ip : List ℕ) (live : List (List ℕ)) → contains live ip ≡ true → 1 ≤ sockets_of ip live
unfolding sockets_of
pos-sockets_of ip [] h = ground arith
pos-sockets_of ip (x ∷ live) h = ground (arith, pos-sockets_of ip live)

sockets_of-without :
    (ip j : List ℕ) (live : List (List ℕ))
    → contains live ip ≡ true
    → sockets_of j (without ip live)
      ≡ (if j == ip then sockets_of ip live - 1 else sockets_of j live)
unfolding sockets_of without
sockets_of-without ip j [] h = ground arith
sockets_of-without ip j (x ∷ live) h =
    ground (arith, sockets_of-without ip j live, pos-sockets_of ip live)

Exact-insert :
    (ip : List ℕ) (d : Dict (List ℕ) ℕ) (live : List (List ℕ))
    → Exact d live
    → Exact (Dict.insert ip (suc (or_zero (Dict.lookup ip d))) d) (ip ∷ live)
unfolding sockets_of
Exact-insert ip d live (n, exact) = (
  insert-NodupKeys ip _ d n,
  λ j. ground (arith, lookup-insert j ip (suc (or_zero (Dict.lookup ip d))) d, exact j, exact ip),
)

Exact-erase :
    (ip : List ℕ) (d : Dict (List ℕ) ℕ) (live : List (List ℕ))
    → contains live ip ≡ true
    → or_zero (Dict.lookup ip d) ≤ 1
    → Exact d live
    → Exact (Dict.erase ip d) (without ip live)
Exact-erase ip d live h last (n, exact) = (
  erase-NodupKeys ip d n,
  λ j. ground (arith, lookup-erase j ip d n, sockets_of-without ip j live h, exact j, exact ip),
)

Exact-less :
    (ip : List ℕ) (d : Dict (List ℕ) ℕ) (live : List (List ℕ))
    → contains live ip ≡ true
    → Exact d live
    → Exact (Dict.insert ip (or_zero (Dict.lookup ip d) - 1) d) (without ip live)
Exact-less ip d live h (n, exact) = (
  insert-NodupKeys ip _ d n,
  λ j. ground (
    arith,
    lookup-insert j ip (or_zero (Dict.lookup ip d) - 1) d,
    sockets_of-without ip j live h,
    exact j,
    exact ip,
  ),
)

seat-IsExact :
    (sv : Server) (ip : List ℕ) (s : Limits) (r : Limits × Answer)
    → s.connections ≡ sv.limits.connections
    → Counted s (address_of ip) (count_of s (address_of ip)) r
    → IsExact sv
    → IsExact (seat sv ip r)
unfolding seat count_of
seat-IsExact sv ip s _ e (yes_counted c) x =
    let same =
      c
      ∙ ap (λ d. Dict.insert (address_of ip) (suc (or_zero (Dict.lookup (address_of ip) d))) d) e in
    rw same (Exact-insert (address_of ip) sv.limits.connections sv.live x)
seat-IsExact sv ip s _ e (not_counted c) x = let same = c ∙ e in rw same x

enter-IsExact :
    (sv : Server) (c : Clock) (ip : List ℕ)
    → stays_on sv c ≡ true
    → IsExact sv
    → IsExact (enter sv c ip)
unfolding enter stays_on
enter-IsExact sv c ip stays x =
    let s = (enabled sv.limits c.head.now c.head.raw).0 in
    let same : s.connections ≡ sv.limits.connections =
      enabled-connections sv.limits c.head.now c.head.raw in
    elim (Bool-cases (enabled sv.limits c.head.now c.head.raw).1) [
      | inl on ↦
          let still : (enabled s c.on.now c.on.raw).1 ≡ true = rw on at stays in
          rw on (seat-IsExact sv ip s _ same (connection_allowed-Counted s c ip still) x)
      | inr out ↦ rw out (rw same x)
    ]

leave-IsExact : (sv : Server) (ip : List ℕ) → IsExact sv → IsExact (leave sv ip)
unfolding leave release_connection count_of
leave-IsExact sv ip x = elim (Bool-cases (contains sv.live (address_of ip))) [
  | inr gone ↦ rw gone x
  | inl here ↦
      let a = address_of ip in
      let d = sv.limits.connections in
      rw here (elim (Bool-cases (leb (or_zero (Dict.lookup a d)) 1)) [
        | inl last ↦ rw last (Exact-erase a d sv.live here (ground arith) x)
        | inr more ↦ rw more (Exact-less a d sv.live here x)
      ])
]

-- The count of each address is the number of its connected sockets that connected while the limits
-- were on, whatever connects and disconnects. The settings may change meanwhile, but not so that the
-- limits go off between the two times that one connection reads whether they are on.
pub run-IsExact :
    (sv : Server) (es : List Event) → IsExact sv → AllStayOn sv es → IsExact (run sv es)
unfolding run
run-IsExact sv [] x stay = x
run-IsExact sv (connects c ip ∷ es) x stay =
    run-IsExact (enter sv c ip) es (enter-IsExact sv c ip stay.0 x) stay.1
run-IsExact sv (disconnects ip ∷ es) x stay =
    run-IsExact (leave sv ip) es (leave-IsExact sv ip x) stay

connection_allowed_room :
    (s : Limits) (c : Clock) (ip : List ℕ)
    → (enabled s c.on.now c.on.raw).1 ≡ true
    → (connection_allowed s c ip).1 ≡ allowed
    → reaches
        (value (enabled s c.on.now c.on.raw).0 c.limit.now c.limit.raw [] max_connections_per_ip).1
        (count_of s (address_of ip))
      ≡ false
unfolding connection_allowed count_of value
connection_allowed_room s c ip on h =
    let s1 = (enabled s c.on.now c.on.raw).0 in
    let s2 = (value s1 c.limit.now c.limit.raw [] max_connections_per_ip).0 in
    let limit = (value s1 c.limit.now c.limit.raw [] max_connections_per_ip).1 in
    let e2 : s2.connections ≡ s.connections =
      config-connections s1 c.limit.now c.limit.raw ∙ enabled-connections s c.on.now c.on.raw in
    let same : count_of s2 (address_of ip) ≡ count_of s (address_of ip) =
      ap (λ d. or_zero (Dict.lookup (address_of ip) d)) e2 in
    elim (Bool-cases (reaches limit (count_of s2 (address_of ip)))) [
      | inr room ↦ ap (reaches limit) (sym same) ∙ room
      | inl full ↦
          let no : denied max_connections_per_ip 30 ≡ allowed = rw (on, full) at h in absurd (cc)
    ]

seat_cases :
    (sv : Server) (ip : List ℕ) (r : Limits × Answer)
    → ((r.1 ≡ allowed) × ((seat sv ip r).live ≡ address_of ip ∷ sv.live))
      ⊎ ((seat sv ip r).live ≡ sv.live)
unfolding seat
seat_cases sv ip (s, allowed) = inl (refl, refl)
seat_cases sv ip (s, denied name n) = inr refl

-- With the limits on, at both times that this is read, a new connection brings the connected sockets of
-- its address to the limit at most, or leaves them as many as they were. Sockets that connected while
-- the limits were off are not counted among them.
pub enter_limit :
    (sv : Server) (c : Clock) (ip : List ℕ) (n : ℕ)
    → IsExact sv
    → (enabled sv.limits c.head.now c.head.raw).1 ≡ true
    → stays_on sv c ≡ true
    → limit_at sv c ≡ some n
    → sockets_of (address_of ip) (enter sv c ip).live ≤ max n (sockets_of (address_of ip) sv.live)
unfolding enter count_of sockets_of stays_on
enter_limit sv c ip n x on stays limit =
    let s = (enabled sv.limits c.head.now c.head.raw).0 in
    let still : (enabled s c.on.now c.on.raw).1 ≡ true = rw on at stays in
    let a = address_of ip in
    let admission = connection_allowed s c ip in
    let current : count_of s a ≡ sockets_of a sv.live =
      ap (λ d. or_zero (Dict.lookup a d)) (enabled-connections sv.limits c.head.now c.head.raw)
      ∙ x.1 a in
    rw on (elim (seat_cases sv ip admission) [
      | inr same ↦ rw same (omega arith)
      | inl (allowed_here, more) ↦
          let room = connection_allowed_room s c ip still allowed_here in
          let below : reaches (some n) (sockets_of a sv.live) ≡ false =
            sym (ap (λ l. reaches l (sockets_of a sv.live)) limit)
            ∙ ap (reaches (limit_at sv c)) (sym current)
            ∙ room in
          rw more (ground (arith, below, ==_refl a))
    ])
