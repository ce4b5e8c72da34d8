-- ===== src/Tests/Tickets.antt =====
-- Concrete runs of lib/chat-ticket-store.js. The stand-in for the hash is the identity.
use text.Mathlib.TextEquality.{eq_iff}
use tyo_mq.Prelude.{
  ◌≡◌, ◌≢◌, ◌≤◌, refl, true, false, none, some, List, [], ◌∷◌, String, string_eq, arith,
}
use tyo_mq.Prelude.Dict
use tyo_mq.Prelude.Dict.{keep_if}
use tyo_mq.ChatTickets.{
  TicketStore, ticket, thrown, cap_exceeded, missing_ref, unexpected_ref, init, issue, verify, size,
  redeems,
}
use tyo_mq.ChatTickets.Runs.{
  Call, issue_call, verify_call, size_call, run, verify_once, verify-issue,
}
use tyo_mq.ChatTickets.Quota.{granted, granted-le}

abbrev hash : String → String
hash raw = raw

-- A lifetime of 100 ms, one upload in 1000 ms, ten tickets.
abbrev store : TicketStore
store = init (some 100) (some 1) (some 1000) (some 10)

abbrev calls : List Call
calls =
    verify_call "t1" "upload" none 20
    ∷ size_call (some 25)
    ∷ issue_call "alice" "upload" none 30 "t2"
    ∷ []

abbrev issued : TicketStore
issued = (issue hash store "alice" "download" (some "r") 10 "t1").0

outcomes :
    ((issue hash store "alice" "download" (some "r") 10 "t1").1 ≡ ticket "t1")
    × ((issue hash store "alice" "download" none 10 "t1").1 ≡ thrown missing_ref)
    × ((issue hash store "alice" "upload" (some "") 10 "t1").1 ≡ thrown unexpected_ref)
    × ((issue hash (run hash issued calls) "alice" "upload" none 40 "t3").1 ≡ thrown cap_exceeded)
    × ((verify hash issued "t1" "download" (some "x") 50).1 ≡ false)
    × ((verify hash issued "t1" "download" (some "r") 110).1 ≡ true)
    × ((verify hash issued "t1" "download" (some "r") 111).1 ≡ false)
unfolding issue verify size run init string_eq Dict.lookup Dict.insert Dict.retain Dict.erase
outcomes = (refl, refl, refl, refl, refl, refl, refl)

issued_valid : Dict.NodupKeys issued.tickets
unfolding issue init string_eq Dict.insert Dict.lookup
issued_valid = (refl, tt)

redeemed : (verify hash issued "t1" "download" (some "r") 50).1 ≡ true
unfolding issue verify init string_eq Dict.lookup Dict.insert Dict.retain Dict.erase
redeemed = refl

minted : (issue hash store "alice" "download" (some "r") 10 "t1").1 ≡ ticket "t1"
unfolding issue init string_eq
minted = refl

t1_ne_t2 : ◌≢◌ {A = String} "t1" "t2"
t1_ne_t2 = ground (arith, eq_iff "t1" "t2")

t1_ne_empty : ◌≢◌ {A = String} "t1" ""
t1_ne_empty = ground (arith, eq_iff "t1" "")

verify_once_example :
    (verify hash
      (run hash (verify hash issued "t1" "download" (some "r") 50).0 calls)
      "t1"
      "download"
      (some "r")
      60).1
    ≡ false
verify_once_example =
    verify_once hash issued "t1" "download" "download" (some "r") (some "r") 50 60 calls
      issued_valid redeemed (t1_ne_t2, tt)

verify-issue_example :
    (verify hash
      (run hash (issue hash store "alice" "download" (some "r") 10 "t1").0 calls)
      "t1"
      "download"
      (some "r")
      110).1
    ≡ true
unfolding init string_eq redeems
verify-issue_example =
    verify-issue hash store "alice" "download" (some "r") 10 110 "t1" "t1" calls tt minted
      t1_ne_empty (refl, omega arith, (omega arith, (t1_ne_t2, omega arith, tt))) (omega arith)

first_upload : (issue hash store "alice" "upload" none 10 "t1").1 ≡ ticket "t1"
unfolding issue init string_eq Dict.lookup
first_upload = refl

granted-le_example :
    granted hash "alice" store (issue_call "alice" "upload" none 10 "t1" ∷ calls) ≤ 1
unfolding init issue string_eq Dict.lookup
granted-le_example = granted-le hash calls "alice" store none 10 "t1" refl refl (omega arith)
