-- ===== src/Tests/Nonces.antt =====
-- Concrete runs of lib/nonce-cache.js.
use tyo_mq.Prelude.{◌≡◌, refl, true, false, some, List, [], ◌∷◌, string_eq, arith}
use tyo_mq.Prelude.Dict
use tyo_mq.NonceCache.{init, has, add, size}
use tyo_mq.NonceCache.Replay.{Call, has_call, add_call, size_call, run, has-add}

abbrev calls : List Call
calls = add_call "a" 10 10 11 ∷ has_call "a" 20 20 20 ∷ size_call 30 ∷ add_call "b" 40 40 40 ∷ []

-- With a maximal age of 100 ms a nonce is known for less than 200 ms.
seen_then_forgotten :
    let c = run (init (some 100) 0) calls in
    ((has c "a" 210 210 210).1 ≡ true)
    × ((has c "a" 211 211 211).1 ≡ false)
    × ((has c "c" 50 50 50).1 ≡ false)
    × ((size c 211).1 ≡ 1)
unfolding run has add size init Dict.lookup Dict.insert Dict.retain string_eq
seen_then_forgotten = (refl, refl, refl, refl)

-- A proof stamped 50 is recorded at 11 and presented again at 150, when it is still fresh.
has-add_example :
    (has (run (init (some 100) 0) (add_call "b" 5 5 5 ∷ calls)) "a" 150 150 150).1 ≡ true
has-add_example =
    has-add (some 100) 0 (add_call "b" 5 5 5 ∷ [])
      (has_call "a" 20 20 20 ∷ size_call 30 ∷ add_call "b" 40 40 40 ∷ []) "a" 50 10 10 11 150 150
      150 (omega arith) (omega arith) (omega arith) (omega arith) (omega arith) (omega arith)
      (omega arith)
