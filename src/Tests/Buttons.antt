-- ===== src/Tests/Buttons.antt =====
-- Concrete actions of notifications.
use tyo_mq.Prelude.{◌≡◌, refl, none, some, [], ◌∷◌, nat_eq, codes_eq}
use tyo_mq.Prelude.Text.{codes}
use tyo_mq.Actions.{
  missing, text, no_headers, entries, RawAction, no_object, object, not_array, array, view, http,
  bad_url, unsafe_header, actions, no_array, error_at, check_items, check_item, validate_actions,
}
use tyo_mq.Actions.Checks.{Answers, validate_actions_lem}

abbrev open_link : RawAction
open_link = record {
  action = text (codes "view");
  label = text (codes "Open");
  url = text (codes "https://a.b");
  method = missing;
  body = missing;
  headers = no_headers;
}

abbrev call : RawAction
call = record open_link {
  action = text (codes "http");
  method = text (codes "put");
  headers = entries ((codes "X-A", text (codes "1")) ∷ []);
}

abbrev plain : RawAction
plain = record open_link { url = text (codes "http://a.b") }

abbrev polluting : RawAction
polluting = record call { headers = entries ((codes "__proto__", text (codes "1")) ∷ []) }

answers :
    (validate_actions (array (object open_link ∷ object call ∷ []))
      ≡ actions (
          view (codes "Open") (codes "https://a.b")
          ∷ http
              (codes "Open")
              (codes "https://a.b")
              (codes "PUT")
              none
              (some ((codes "X-A", codes "1") ∷ []))
          ∷ []))
    × (validate_actions (array (object open_link ∷ object plain ∷ [])) ≡ error_at 1 bad_url)
    × (validate_actions (array (object polluting ∷ no_object ∷ [])) ≡ error_at 0 unsafe_header)
    × (validate_actions not_array ≡ no_array)
unfolding validate_actions check_items check_item codes_eq nat_eq
answers = (refl, refl, refl, refl)

validate_actions_lem_example :
    Answers
      (array (object open_link ∷ object plain ∷ []))
      (validate_actions (array (object open_link ∷ object plain ∷ [])))
validate_actions_lem_example = validate_actions_lem (array (object open_link ∷ object plain ∷ []))
