-- ===== src/SealedInbox/Drain.antt =====
-- A client that drains an inbox without acknowledgements. What counts is what the broker emits: that it
-- arrives is not known on this path.
use tyo_mq.Prelude.{
  ℕ, zero, suc, ◌<◌, ◌≡◌, refl, ap, ◌∙◌, Bool, true, false, Option, none, some, List, [], ◌∷◌, ◌++◌,
  ltb, if◌then◌else◌, ==_refl, codes_eq, contains, length, length-drop, take, drop, map, arith,
  Bool-cases, inl, inr,
}
use tyo_mq.SealedInbox.{Text, Entry, Reply, drained, remove, remove_all, drain}

abbrev pub has_more : Reply → Bool
has_more (drained replayed dead pending more) = more
has_more _ = false

abbrev behind : List Text → Option (List Text × List Entry) → Option (List Text × List Entry)
behind sent none = none
behind sent (some rest) = some (sent ++ rest.0, rest.1)

-- The client's loop on fuel: what is emitted to it, and what is left in the inbox.
unfoldable pub ask_while_more : ℕ → ℕ → List Entry → Option (List Text × List Entry)
ask_while_more zero batch q = none
ask_while_more (suc fuel) batch q =
    let (left, sent, reply) = drain batch q in
    let rest = ask_while_more fuel batch left in
    if has_more reply then behind sent rest else some (sent, left)

-- No two messages have the same id.
abbrev pub NodupIds : List Entry → Type 0
NodupIds [] = Unit
NodupIds (e ∷ es) = (contains (map (λ x. x.id) es) e.id ≡ false) × NodupIds es

remove_absent :
    (id : Text) (q : List Entry) → contains (map (λ x. x.id) q) id ≡ false → remove id q ≡ q
unfolding remove
remove_absent id [] h = refl
remove_absent id (x ∷ q) h = ground (arith, remove_absent id q)

remove_head : (e : Entry) (q : List Entry) → NodupIds (e ∷ q) → remove e.id (e ∷ q) ≡ q
unfolding remove
remove_head e q n = ground (arith, ==_refl e.id, remove_absent e.id q n.0)

remove_all-take : (b : ℕ) (q : List Entry) → NodupIds q → remove_all (take b q) q ≡ drop b q
unfolding remove_all
remove_all-take zero q n = refl
remove_all-take (suc b) [] n = refl
remove_all-take (suc b) (e ∷ q) n =
    ap (remove_all (take b q)) (remove_head e q n) ∙ remove_all-take b q n.1

drop-NodupIds : (b : ℕ) (q : List Entry) → NodupIds q → NodupIds (drop b q)
drop-NodupIds zero q n = n
drop-NodupIds (suc b) [] n = n
drop-NodupIds (suc b) (e ∷ q) n = drop-NodupIds b q n.1

abbrev pub messages : List Entry → List Text
messages q = map (λ e. e.message) q

messages-take-drop :
    (b : ℕ) (q : List Entry) → messages (take b q) ++ messages (drop b q) ≡ messages q
messages-take-drop zero q = refl
messages-take-drop (suc b) [] = refl
messages-take-drop (suc b) (e ∷ q) = ap (λ r. e.message ∷ r) (messages-take-drop b q)

-- A batch as long as the inbox is the inbox, and leaves nothing.
whole_batch :
    (b : ℕ) (q : List Entry)
    → ltb (length (take b q)) (length q) ≡ false
    → (take b q ≡ q) × (drop b q ≡ [])
whole_batch zero [] h = (refl, refl)
whole_batch zero (e ∷ q) h = ground arith
whole_batch (suc b) [] h = (refl, refl)
whole_batch (suc b) (e ∷ q) h =
    let rest = whole_batch b q (ground arith) in (ap (λ r. e ∷ r) rest.0, rest.1)

shorter :
    (fuel b : ℕ) (q : List Entry)
    → 0 < b
    → ltb (length (take b q)) (length q) ≡ true
    → length q < suc fuel
    → length (drop b q) < fuel
shorter fuel b [] positive more enough = ground arith
shorter fuel b (e ∷ q) positive more enough = omega (arith, length-drop b (e ∷ q))

-- A client that asks without acknowledgements, again as long as it is told that there is more,
-- while nothing else changes the inbox, stops: with more rounds than there are messages, for an
-- inbox without two messages of one id and a batch of at least one, every message was emitted to
-- it, in order and once, and the inbox is empty.
pub ask_while_more-drains :
    (fuel batch : ℕ) (q : List Entry)
    → 0 < batch
    → NodupIds q
    → length q < fuel
    → ask_while_more fuel batch q ≡ some (messages q, [])
unfolding ask_while_more drain
ask_while_more-drains zero batch q positive n enough = ground arith
ask_while_more-drains (suc fuel) batch q positive n enough =
    elim (Bool-cases (ltb (length (take batch q)) (length q))) [
      | inl more ↦
          let rest =
            ask_while_more-drains fuel batch (drop batch q) positive (drop-NodupIds batch q n)
              (shorter fuel batch q positive more enough) in
          rw (more, remove_all-take batch q n, rest)
            (ap (λ r. some (r, [])) (messages-take-drop batch q))
      | inr last ↦
          let (all, nothing) = whole_batch batch q last in
          rw (last, remove_all-take batch q n, nothing) (ap (λ r. some (messages r, [])) all)
    ]
