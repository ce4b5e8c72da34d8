-- ===== src/Tests/Streams.antt =====
-- Concrete tickets of streams.
use text.Mathlib.TextEquality.{eq_iff}
use tyo_mq.Prelude.{String, ◌≡◌, refl, false, none, some, List, [], ◌∷◌, ◌==◌, string_eq, arith}
use tyo_mq.Prelude.Dict
use tyo_mq.SseTickets.{issue, consume_sse, consume_notify, sweep}
use tyo_mq.SseTickets.Single.{Call, issue_call, consume_call, sweep_call, step, run, consume_once}

abbrev history : List Call
history = issue_call "t" "chat" 5 ∷ issue_call "u" "news" 6 ∷ []

opened_within_a_minute :
    ((consume_sse (run [] history) "t" 60005).1
      ≡ some (record { subject = "chat"; expires = 60005 }))
    × ((consume_sse (run [] history) "t" 60006).1 ≡ none)
    × ((consume_notify (run [] (sweep_call 60006 ∷ [])) "u" 60006).1 ≡ none)
unfolding run step issue sweep consume_sse consume_notify Dict.insert Dict.lookup Dict.erase
    Dict.retain string_eq
opened_within_a_minute = (refl, refl, refl)

t-named : ◌==◌ {A = String} "t" "" ≡ false
t-named = ground (arith, eq_iff "t" "")

t-other : ◌==◌ {A = String} "t" "u" ≡ false
t-other = ground (arith, eq_iff "t" "u")

consume_once_example :
    (consume_sse
      (run (consume_sse (run [] history) "t" 10).0 (sweep_call 20 ∷ issue_call "u" "chat" 30 ∷ []))
      "t"
      40).1
    ≡ none
consume_once_example =
    consume_once "t" history (sweep_call 20 ∷ issue_call "u" "chat" 30 ∷ []) 10 40 t-named
      (t-other, tt)

abbrev between : List Call
between = consume_call "u" 30 ∷ sweep_call 60000 ∷ []
