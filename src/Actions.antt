-- ===== src/Actions.antt =====
-- `validateActions` of lib/notify.js: the buttons of a notification. A text is the list of its UTF-16 code
-- units, so that its length is JavaScript's. A field is missing, a text, or any other value; of an error the kind
-- is kept, with the index that its wording names.
pub mod Checks
use tyo_mq.Prelude.{
  ℕ, zero, suc, ◌+◌, ◌-◌, ◌≤◌, Bool, true, false, Option, none, some, List, [], ◌∷◌, ◌++◌, ◌&&◌,
  ◌||◌, not, length, leb, ltb, if◌then◌else◌, ◌==◌, nat_eq, codes_eq, contains,
}
use tyo_mq.Prelude.Text.{codes}

pub data Field : Type 0 where
  missing : Field
  text : List ℕ → Field
  other : Field

pub data Headers : Type 0 where
  no_headers not_object : Headers
  entries : List (List ℕ × Field) → Headers

pub record RawAction : Type 0 where
  pub action : Field
  pub label : Field
  pub url : Field
  pub method : Field
  pub body : Field
  pub headers : Headers

pub data RawItem : Type 0 where
  no_object : RawItem
  object : RawAction → RawItem

pub data Raw : Type 0 where
  not_array : Raw
  array : List RawItem → Raw

pub data Action : Type 0 where
  view : List ℕ → List ℕ → Action
  http : List ℕ → List ℕ → List ℕ → Option (List ℕ) → Option (List (List ℕ × List ℕ)) → Action

pub data Fault : Type 0 where
  not_an_object bad_type bad_label bad_url bad_method bad_body bad_headers too_many_headers
        unsafe_header bad_entry :
      Fault

pub data Checked {ℓ} (A : Type ℓ) : Type ℓ where
  ok : A → Checked A
  fault : Fault → Checked A

pub data Outcome : Type 0 where
  actions : List Action → Outcome
  no_array too_many : Outcome
  error_at : ℕ → Fault → Outcome

abbrev pub max_actions : ℕ
max_actions = 6

abbrev pub max_action_label : ℕ
max_action_label = 64

abbrev pub max_action_url : ℕ
max_action_url = 2048

abbrev pub max_action_body : ℕ
max_action_body = 1024

abbrev pub max_action_headers : ℕ
max_action_headers = 8

abbrev pub max_action_header_len : ℕ
max_action_header_len = 256

-- `ACTION_METHODS`
abbrev pub action_methods : List (List ℕ)
action_methods = codes "GET" ∷ codes "POST" ∷ codes "PUT" ∷ codes "DELETE" ∷ []

-- `text.indexOf(prefix) === 0`
abbrev pub starts_with : List ℕ → List ℕ → Bool
starts_with [] cs = true
starts_with (p ∷ ps) [] = false
starts_with (p ∷ ps) (c ∷ cs) = if p == c then starts_with ps cs else false

-- `text.toUpperCase()`, on the letters a to z and on the three others whose upper case has letters of a method.
upper_unit : ℕ → List ℕ
upper_unit c =
    if leb b'a' c && leb c b'z'
    then (c - 32) ∷ []
    else if c == 383
    then b'S' ∷ []
    else if c == 64261 || c == 64262
    then b'S' ∷ b'T' ∷ []
    else c ∷ []

to_upper_case : List ℕ → List ℕ
unfolding upper_unit
to_upper_case [] = []
to_upper_case (c ∷ cs) = upper_unit c ++ to_upper_case cs

is_unsafe : List ℕ → Bool
is_unsafe key = key == codes "__proto__" || key == codes "constructor" || key == codes "prototype"

check_entry : List ℕ → Field → Checked (List ℕ × List ℕ)
unfolding is_unsafe
check_entry key missing = if is_unsafe key then fault unsafe_header else fault bad_entry
check_entry key other = if is_unsafe key then fault unsafe_header else fault bad_entry
check_entry key (text v) =
    if is_unsafe key
    then fault unsafe_header
    else if ltb max_action_header_len (length v) || ltb max_action_header_len (length key)
    then fault bad_entry
    else ok (key, v)

abbrev pub prepend {ℓ} : {A : Type ℓ} → Checked A → Checked (List A) → Checked (List A)
prepend (fault f) rest = fault f
prepend (ok x) (fault f) = fault f
prepend (ok x) (ok xs) = ok (x ∷ xs)

check_entries : List (List ℕ × Field) → Checked (List (List ℕ × List ℕ))
unfolding check_entry
check_entries [] = ok []
check_entries ((key, v) ∷ rest) = prepend (check_entry key v) (check_entries rest)

check_headers : Headers → Checked (Option (List (List ℕ × List ℕ)))
unfolding check_entries
check_headers no_headers = ok none
check_headers not_object = fault bad_headers
check_headers (entries es) =
    if ltb max_action_headers (length es)
    then fault too_many_headers
    else elim (check_entries es) [ ok hs ↦ ok (some hs) | fault f ↦ fault f ]

check_body : Field → Checked (Option (List ℕ))
check_body missing = ok none
check_body other = fault bad_body
check_body (text b) = if ltb max_action_body (length b) then fault bad_body else ok (some b)

check_method : Field → Checked (List ℕ)
unfolding to_upper_case
check_method missing = ok (codes "POST")
check_method other = fault bad_method
check_method (text m) =
    if contains action_methods (to_upper_case m) then ok (to_upper_case m) else fault bad_method

check_label : Field → Checked (List ℕ)
check_label missing = fault bad_label
check_label other = fault bad_label
check_label (text l) = if l == [] || ltb max_action_label (length l) then fault bad_label else ok l

check_url : Field → Checked (List ℕ)
check_url missing = fault bad_url
check_url other = fault bad_url
check_url (text u) =
    if not (starts_with (codes "https://") u) || ltb max_action_url (length u)
    then fault bad_url
    else ok u

is_text : Field → List ℕ → Bool
is_text missing s = false
is_text other s = false
is_text (text t) s = t == s

make_http :
    List ℕ
    → List ℕ
    → Checked (List ℕ)
    → Checked (Option (List ℕ))
    → Checked (Option (List (List ℕ × List ℕ)))
    → Checked Action
make_http label url (fault f) body headers = fault f
make_http label url (ok m) (fault f) headers = fault f
make_http label url (ok m) (ok b) (fault f) = fault f
make_http label url (ok m) (ok b) (ok hs) = ok (http label url m b hs)

make_action : RawAction → Checked (List ℕ) → Checked (List ℕ) → Checked Action
unfolding make_http check_headers check_body check_method is_text
make_action a (fault f) url = fault f
make_action a (ok label) (fault f) = fault f
make_action a (ok label) (ok url) =
    if is_text a.action (codes "http")
    then make_http label url (check_method a.method) (check_body a.body) (check_headers a.headers)
    else ok (view label url)

-- One round of the loop.
unfoldable pub check_item : RawItem → Checked Action
unfolding make_action check_label check_url is_text
check_item no_object = fault not_an_object
check_item (object a) =
    if not (is_text a.action (codes "http")) && not (is_text a.action (codes "view"))
    then fault bad_type
    else make_action a (check_label a.label) (check_url a.url)

collect : ℕ → Checked Action → Outcome → Outcome
collect i (fault f) rest = error_at i f
collect i (ok a) (actions as') = actions (a ∷ as')
collect i (ok a) no_array = no_array
collect i (ok a) too_many = too_many
collect i (ok a) (error_at j f) = error_at j f

unfoldable pub check_items : ℕ → List RawItem → Outcome
unfolding collect
check_items i [] = actions []
check_items i (item ∷ items) = collect i (check_item item) (check_items (i + 1) items)

-- `validateActions(raw)`
unfoldable pub validate_actions : Raw → Outcome
validate_actions not_array = no_array
validate_actions (array items) =
    if ltb max_actions (length items) then too_many else check_items 0 items
