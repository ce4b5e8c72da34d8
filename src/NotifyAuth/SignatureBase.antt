-- ===== src/NotifyAuth/SignatureBase.antt =====
-- The text that is signed determines what was signed.
use tyo_mq.Prelude.{ℕ, ◌<◌, ◌^◌, true, List, [], ◌∷◌, ◌≡◌, arith, nat_eq}
use tyo_mq.Prelude.Text.{Lacks, cut_first, cut_last, decimal, decimal-injective, decimal-Lacks}
use tyo_mq.NotifyAuth.{
  Crypto, signature_base, newline, space, is_valid_topic, is_topic_char, every, nonce_key,
}

-- Two equal signature bases agree in the action, the timestamp, the nonce and the printed body,
-- although the nonce may hold any characters: actions and printed bodies hold no newline, and the
-- timestamps are below 10 ^ 21.
pub signature_base-injective :
    (c : Crypto) (action action' : List ℕ) (body body' : c.Body) (timestamp timestamp' : ℕ)
    (nonce nonce' : List ℕ)
    → Lacks newline action
    → Lacks newline action'
    → Lacks newline (c.stable_stringify body)
    → Lacks newline (c.stable_stringify body')
    → timestamp < 10 ^ 21
    → timestamp' < 10 ^ 21
    → signature_base c action body timestamp nonce
      ≡ signature_base c action' body' timestamp' nonce'
    → (action ≡ action')
      × (timestamp ≡ timestamp')
      × (nonce ≡ nonce')
      × (c.stable_stringify body ≡ c.stable_stringify body')
unfolding signature_base
signature_base-injective c action action' body body' timestamp timestamp' nonce nonce' la la' lb lb'
      h h' e =
    let (same_action, e₁) = cut_first newline action action' _ _ la la' e in
    let (same_digits, e₂) =
      cut_first newline (decimal timestamp) (decimal timestamp') _ _
        (decimal-Lacks timestamp newline (omega arith))
        (decimal-Lacks timestamp' newline (omega arith)) e₁ in
    let (same_nonce, same_body) = cut_last newline nonce nonce' _ _ lb lb' e₂ in
    (same_action, decimal-injective timestamp timestamp' h h' same_digits, same_nonce, same_body)

topic_char-ne-space : (c : ℕ) → is_topic_char c ≡ true → ¬ (c ≡ space)
unfolding is_topic_char nat_eq
topic_char-ne-space c h e = ground arith

every-Lacks : (topic : List ℕ) → every is_topic_char topic ≡ true → Lacks space topic
every-Lacks [] h = tt
every-Lacks (c ∷ cs) h = (topic_char-ne-space c (ground arith), every-Lacks cs (ground arith))

-- The key of a used nonce determines the topic and the nonce, for topics that `is_valid_topic` passes
-- and any nonces.
pub nonce_key-injective :
    (topic topic' nonce nonce' : List ℕ)
    → is_valid_topic topic ≡ true
    → is_valid_topic topic' ≡ true
    → nonce_key topic nonce ≡ nonce_key topic' nonce'
    → (topic ≡ topic') × (nonce ≡ nonce')
unfolding nonce_key is_valid_topic
nonce_key-injective topic topic' nonce nonce' v v' e =
    cut_first space topic topic' nonce nonce' (every-Lacks topic (ground arith))
      (every-Lacks topic' (ground arith)) e
