-- ===== src/Tests/Notify.antt =====
-- Concrete runs of lib/notify-auth.js, over a stand-in for the signature check.
use tyo_mq.Prelude.{
  ℕ, ◌≡◌, refl, true, false, none, some, List, [], ◌∷◌, ◌++◌, codes_eq, nat_eq, arith, ◌==◌,
}
use tyo_mq.Prelude.Dict
use tyo_mq.Prelude.Text.{codes}
use tyo_mq.NotifyAuth.{Crypto, Proof, Timestamp, init, is_valid_topic, proof_rejected}
use tyo_mq.NotifyAuth.SignatureBase.{signature_base-injective}
use tyo_mq.NotifyAuth.Nonces.{Check}
use tyo_mq.NotifyAuth.Gate.{Attempt, reject, run, proof_rejected_twice, proof_accepted_again}

-- A key is its own encoding, and a signature is the signed text behind the key.
abbrev toy : Crypto
toy = record {
  Body = List ℕ;
  Key = List ℕ;
  stable_stringify = λ body. body;
  from_base64 = λ text. text;
  create_public_key = λ der. some der;
  verify = λ base key signature. some (signature == key ++ base);
}

abbrev topic : List ℕ
topic = codes "door"

abbrev action : List ℕ
action = codes "register"

abbrev body : List ℕ
body = codes "{}"

abbrev pubkey : List ℕ
pubkey = codes "K"

-- Stamped 60 seconds ahead of the clock at 1000000.
abbrev proof : Proof
proof = record {
  timestamp = Timestamp.at 1060000;
  nonce = codes "n1";
  signature = codes "Kregister\n1060000\nn1\n{}";
}

topics :
    (is_valid_topic topic ≡ true)
    × (is_valid_topic (codes "a b") ≡ false)
    × (is_valid_topic [] ≡ false)
unfolding is_valid_topic nat_eq
topics = (refl, refl, refl)

accepted_first :
    (proof_rejected toy (init none) (some pubkey) action topic body proof 1000000 1000000).1 ≡ false
unfolding proof_rejected init codes_eq Dict.lookup nat_eq
accepted_first = refl

signature_base-injective_example :
    (action ≡ action) × (◌≡◌ {A = ℕ} 7 7) × (codes "n\n1" ≡ codes "n\n1") × (body ≡ body)
signature_base-injective_example =
    signature_base-injective toy action action body body 7 7 (codes "n\n1") (codes "n\n1")
      (omega arith) (omega arith) (omega arith) (omega arith) (omega arith) (omega arith) refl

abbrev checks : List Check
checks =
    record { topic = topic; nonce = codes "n1"; now = 10 }
    ∷ record { topic = topic; nonce = codes "n2"; now = 20 }
    ∷ []

abbrev shown : ℕ → Proof → Attempt toy
shown at p = record {
  claim = some pubkey;
  action = action;
  topic = topic;
  body = body;
  proof = p;
  verified_at = at;
  recorded_at = at;
}

abbrev second : Proof
second = record {
  timestamp = Timestamp.at 1060000;
  nonce = codes "n2";
  signature = codes "Kregister\n1060000\nn2\n{}";
}

proof_rejected_twice_example :
    (reject toy
      (run toy (reject toy (init none) (shown 1000000 proof)).0 (shown 1030000 second ∷ []))
      (shown 1060000 proof)).1
    ≡ true
unfolding init
proof_rejected_twice_example =
    proof_rejected_twice toy (init none) (shown 1000000 proof) (shown 1060000 proof)
      (shown 1030000 second ∷ []) pubkey pubkey tt refl refl refl refl accepted_first
      (omega arith, tt) (omega arith)

-- 60.001 seconds later the same proof passes again.
proof_accepted_again_example :
    let s' =
      (proof_rejected toy (init none) (some pubkey) action topic body proof 1000000 1000000).0 in
    (proof_rejected toy s' (some pubkey) action topic body proof 1060001 1060001).1 ≡ false
unfolding init
proof_accepted_again_example =
    proof_accepted_again toy (init none) pubkey action topic body proof 1060000 1000000 1000000
      1060001 1060001 tt refl accepted_first (omega arith) (omega arith) (omega arith)
