-- ===== src/Actions/Checks.antt =====
-- What an accepted list of actions has passed, and where a refused one fails.
use tyo_mq.Prelude.{
  ℕ, zero, suc, ◌+◌, ◌≤◌, true, Option, none, some, List, [], ◌∷◌, ◌≡◌, ◌≢◌, ◌⊎◌, inl, inr, refl,
  ap, ◌&&◌, not, length, ltb, nat_eq, codes_eq, contains, arith, Bool-cases,
}
use tyo_mq.Prelude.Text.{codes}
use tyo_mq.Actions.{
  Field, missing, text, other, Headers, no_headers, not_object, entries, RawAction, RawItem,
  no_object, object, Raw, not_array, array, Action, view, http, Fault, Checked, ok, fault, Outcome,
  actions, no_array, too_many, error_at, max_actions, max_action_label, max_action_url,
  max_action_body, max_action_headers, max_action_header_len, action_methods, starts_with,
  to_upper_case, is_unsafe, check_entry, prepend, check_entries, check_headers, check_body,
  check_method, check_label, check_url, is_text, make_http, make_action, check_item, collect,
  check_items, validate_actions,
}

-- What holds of a checked value that was accepted.
abbrev pub Ensures {ℓ} : {A : Type ℓ} → (A → Type 0) → Checked A → Type 0
Ensures P (ok a) = P a
Ensures P (fault f) = Unit

abbrev pub IsSafeEntry : List ℕ × List ℕ → Type 0
IsSafeEntry (key, v) =
    (key ≢ codes "__proto__")
    × (key ≢ codes "constructor")
    × (key ≢ codes "prototype")
    × (length key ≤ max_action_header_len)
    × (length v ≤ max_action_header_len)

abbrev pub AllSafe : List (List ℕ × List ℕ) → Type 0
AllSafe [] = Unit
AllSafe (e ∷ es) = IsSafeEntry e × AllSafe es

abbrev pub IsSafeHeaders : Option (List (List ℕ × List ℕ)) → Type 0
IsSafeHeaders none = Unit
IsSafeHeaders (some hs) = (length hs ≤ max_action_headers) × AllSafe hs

abbrev pub IsSafeBody : Option (List ℕ) → Type 0
IsSafeBody none = Unit
IsSafeBody (some b) = length b ≤ max_action_body

abbrev pub IsLabel : List ℕ → Type 0
IsLabel l = (l ≢ []) × (length l ≤ max_action_label)

abbrev pub IsUrl : List ℕ → Type 0
IsUrl u = (starts_with (codes "https://") u ≡ true) × (length u ≤ max_action_url)

abbrev pub IsSafe : Action → Type 0
IsSafe (view label url) = IsLabel label × IsUrl url
IsSafe (http label url m body headers) =
    IsLabel label
    × IsUrl url
    × (contains action_methods m ≡ true)
    × IsSafeBody body
    × IsSafeHeaders headers

check_label-IsLabel : (f : Field) → Ensures IsLabel (check_label f)
unfolding check_label
check_label-IsLabel missing = tt
check_label-IsLabel other = tt
check_label-IsLabel (text l) = ground arith

check_url-IsUrl : (f : Field) → Ensures IsUrl (check_url f)
unfolding check_url
check_url-IsUrl missing = tt
check_url-IsUrl other = tt
check_url-IsUrl (text u) = ground arith

check_body-IsSafeBody : (f : Field) → Ensures IsSafeBody (check_body f)
unfolding check_body
check_body-IsSafeBody missing = tt
check_body-IsSafeBody other = tt
check_body-IsSafeBody (text b) = ground arith

contains_post : contains action_methods (codes "POST") ≡ true
unfolding codes_eq nat_eq
contains_post = refl

check_method-contains :
    (f : Field) → Ensures (λ m. contains action_methods m ≡ true) (check_method f)
unfolding check_method
check_method-contains missing = contains_post
check_method-contains other = tt
check_method-contains (text m) = elim (Bool-cases (contains action_methods (to_upper_case m))) [
  | inl e ↦ rw e e
  | inr e ↦ rw e tt
]

check_entry-IsSafeEntry : (key : List ℕ) (v : Field) → Ensures IsSafeEntry (check_entry key v)
unfolding check_entry is_unsafe
check_entry-IsSafeEntry key missing = ground arith
check_entry-IsSafeEntry key other = ground arith
check_entry-IsSafeEntry key (text v) = ground arith

both :
    (c : Checked (List ℕ × List ℕ)) (r : Checked (List (List ℕ × List ℕ))) (n : ℕ)
    → Ensures IsSafeEntry c
    → Ensures (λ hs. AllSafe hs × (length hs ≡ n)) r
    → Ensures (λ hs. AllSafe hs × (length hs ≡ suc n)) (prepend c r)
both (fault f) r n h h' = tt
both (ok e) (fault f) n h h' = tt
both (ok e) (ok es) n h (all, l) = ((h, all), ap suc l)

check_entries-AllSafe :
    (es : List (List ℕ × Field))
    → Ensures (λ hs. AllSafe hs × (length hs ≡ length es)) (check_entries es)
unfolding check_entries
check_entries-AllSafe [] = (tt, refl)
check_entries-AllSafe ((key, v) ∷ es) =
    let first = check_entry-IsSafeEntry key v in
    let rest = check_entries-AllSafe es in
    both (check_entry key v) (check_entries es) (length es) first rest

within :
    (c : Checked (List (List ℕ × List ℕ))) (n : ℕ)
    → n ≤ max_action_headers
    → Ensures (λ hs. AllSafe hs × (length hs ≡ n)) c
    → Ensures IsSafeHeaders (elim c as (λ _. Checked (Option (List (List ℕ × List ℕ)))) [
      | ok hs ↦ ok (some hs)
      | fault f ↦ fault f
    ])
within (fault f) n le h = tt
within (ok hs) n le (all, l) = (omega (arith, le, l), all)

check_headers-IsSafeHeaders : (h : Headers) → Ensures IsSafeHeaders (check_headers h)
unfolding check_headers
check_headers-IsSafeHeaders no_headers = tt
check_headers-IsSafeHeaders not_object = tt
check_headers-IsSafeHeaders (entries es) = elim (Bool-cases (ltb max_action_headers (length es))) [
  | inl e ↦ rw e tt
  | inr e ↦
      rw e (within (check_entries es) (length es) (ground (arith, e)) (check_entries-AllSafe es))
]

make_http-IsSafe :
    (label url : List ℕ) (m : Checked (List ℕ)) (b : Checked (Option (List ℕ)))
    (h : Checked (Option (List (List ℕ × List ℕ))))
    → IsLabel label
    → IsUrl url
    → Ensures (λ x. contains action_methods x ≡ true) m
    → Ensures IsSafeBody b
    → Ensures IsSafeHeaders h
    → Ensures IsSafe (make_http label url m b h)
unfolding make_http
make_http-IsSafe label url (fault f) b h l u mm bb hh = tt
make_http-IsSafe label url (ok m) (fault f) h l u mm bb hh = tt
make_http-IsSafe label url (ok m) (ok b) (fault f) l u mm bb hh = tt
make_http-IsSafe label url (ok m) (ok b) (ok h) l u mm bb hh = (l, u, mm, bb, hh)

make_action-IsSafe :
    (a : RawAction) (label url : Checked (List ℕ))
    → Ensures IsLabel label
    → Ensures IsUrl url
    → Ensures IsSafe (make_action a label url)
unfolding make_action
make_action-IsSafe a (fault f) url l u = tt
make_action-IsSafe a (ok label) (fault f) l u = tt
make_action-IsSafe a (ok label) (ok url) l u = elim (Bool-cases (is_text a.action (codes "http"))) [
  | inl e ↦ rw e (
      make_http-IsSafe label url (check_method a.method) (check_body a.body)
        (check_headers a.headers) l u (check_method-contains a.method)
        (check_body-IsSafeBody a.body) (check_headers-IsSafeHeaders a.headers))
  | inr e ↦ rw e (l, u)
]

check_item-IsSafe : (item : RawItem) → Ensures IsSafe (check_item item)
unfolding check_item
check_item-IsSafe no_object = tt
check_item-IsSafe (object a) =
    elim (Bool-cases
      (not (is_text a.action (codes "http")) && not (is_text a.action (codes "view")))) [
        | inl e ↦ rw e tt
        | inr e ↦ rw e (
            make_action-IsSafe a (check_label a.label) (check_url a.url)
              (check_label-IsLabel a.label) (check_url-IsUrl a.url))
      ]

-- Each action is safe, and the result of its item.
abbrev pub Accepted : List RawItem → List Action → Type 0
Accepted [] [] = Unit
Accepted [] (a ∷ rest) = ⊥
Accepted (item ∷ items) [] = ⊥
Accepted (item ∷ items) (a ∷ rest) = (check_item item ≡ ok a) × IsSafe a × Accepted items rest

-- The item at the place is the first one that fails, with this fault.
abbrev pub FailsAt : ℕ → Fault → List RawItem → Type 0
FailsAt n f [] = ⊥
FailsAt zero f (item ∷ items) = check_item item ≡ fault f
FailsAt (suc n) f (item ∷ items) = ((a : Action) × (check_item item ≡ ok a)) × FailsAt n f items

-- What the loop finds, from an index on.
abbrev pub Finds : ℕ → List RawItem → Outcome → Type 0
Finds i items (actions found) = Accepted items found
Finds i items no_array = ⊥
Finds i items too_many = ⊥
Finds i items (error_at j f) = (n : ℕ) × (j ≡ i + n) × FailsAt n f items

collect-Finds :
    (i : ℕ) (item : RawItem) (items : List RawItem) (c : Checked Action) (rest : Outcome)
    → check_item item ≡ c
    → Ensures IsSafe c
    → Finds (i + 1) items rest
    → Finds i (item ∷ items) (collect i c rest)
unfolding collect
collect-Finds i item items (fault f) rest e s h = (0, omega arith, e)
collect-Finds i item items (ok a) (actions found) e s h = (e, s, h)
collect-Finds i item items (ok a) no_array e s h = h
collect-Finds i item items (ok a) too_many e s h = h
collect-Finds i item items (ok a) (error_at j f) e s (n, same, h) =
    (suc n, omega (arith, same), ((a, e), h))

check_items-Finds : (i : ℕ) (items : List RawItem) → Finds i items (check_items i items)
unfolding check_items
check_items-Finds i [] = tt
check_items-Finds i (item ∷ items) =
    collect-Finds i item items (check_item item) (check_items (i + 1) items) refl
      (check_item-IsSafe item) (check_items-Finds (i + 1) items)

-- What the answer says of the actions that were given.
abbrev pub Answers : Raw → Outcome → Type 0
Answers not_array outcome = outcome ≡ no_array
Answers (array items) outcome =
    ((max_actions + 1 ≤ length items) × (outcome ≡ too_many))
    ⊎ ((length items ≤ max_actions) × Finds 0 items outcome)

-- A list of at most six actions is accepted as a whole, action by action, and then each one has a label, an https link
-- and, for a request, a known method and a body and headers within the bounds with no unsafe name; or it is refused
-- with the index and the fault of its first bad action. Other input is refused as no list, or as too long.
pub validate_actions_lem : (raw : Raw) → Answers raw (validate_actions raw)
unfolding validate_actions
validate_actions_lem not_array = refl
validate_actions_lem (array items) = elim (Bool-cases (ltb max_actions (length items))) [
  | inl e ↦ rw e (inl (ground (arith, e), refl))
  | inr e ↦ rw e (inr (ground (arith, e), check_items-Finds 0 items))
]
