-- ===== src/NotifyAuth.antt =====
-- lib/notify-auth.js: proofs of key possession for private notify topics and the store of used nonces,
-- the topic names of lib/notify.js, and the gate of lib/server.js that joins them.
-- Texts are lists of UTF-16 code units. A missing text is the empty one: the code treats both alike.
pub mod SignatureBase
pub mod Nonces
pub mod Gate
use tyo_mq.Prelude.{
  ℕ, ◌+◌, ◌*◌, Bool, true, false, Option, none, some, List, [], ◌∷◌, ◌++◌, ◌&&◌, ◌||◌, length, leb,
  ltb, not, or_default, if◌then◌else◌, ◌==◌, nat_eq, codes_eq,
}
use tyo_mq.Prelude.Dict
use tyo_mq.Prelude.Dict.{Dict}
use tyo_mq.Prelude.Text.{decimal}

-- What the code takes from Node's crypto and Buffer and from the package tyo-mq-protocol. A call
-- that throws gives `none`.
pub record Crypto : Type 1 where
  pub Body : Type 0
  pub Key : Type 0
  pub stable_stringify : Body → List ℕ
  pub from_base64 : List ℕ → List ℕ
  pub create_public_key : List ℕ → Option Key
  pub verify : List ℕ → Key → List ℕ → Option Bool

-- `proof.timestamp`: undefined, not a finite number, or a number of milliseconds.
pub data Timestamp : Type 0 where
  undefined not_finite : Timestamp
  at : ℕ → Timestamp

pub record Proof : Type 0 where
  pub timestamp : Timestamp
  pub nonce : List ℕ
  pub signature : List ℕ

abbrev pub newline : ℕ
newline = 10

abbrev pub space : ℕ
space = 32

-- SIGNATURE_MAX_AGE_MS
abbrev pub signature_max_age_ms : ℕ
signature_max_age_ms = 60 * 1000

is_topic_char : ℕ → Bool
is_topic_char c =
    c == b'-'
    || c == b'_'
    || (leb b'A' c && leb c b'Z')
    || (leb b'a' c && leb c b'z')
    || (leb b'0' c && leb c b'9')

abbrev every : (ℕ → Bool) → List ℕ → Bool
every p [] = true
every p (c ∷ cs) = p c && every p cs

-- `TOPIC_RE.test(topic)`
unfoldable pub is_valid_topic : List ℕ → Bool
unfolding is_topic_char
is_valid_topic topic = leb 1 (length topic) && leb (length topic) 64 && every is_topic_char topic

-- `signatureBase(action, body, timestamp, nonce)`
unfoldable pub signature_base : (c : Crypto) → List ℕ → c.Body → ℕ → List ℕ → List ℕ
unfolding decimal
signature_base c action body timestamp nonce =
    action
    ++ (newline ∷ (decimal timestamp ++ (newline ∷ (nonce ++ (newline ∷ c.stable_stringify body)))))

-- `importPubkey`
import_pubkey : (c : Crypto) → List ℕ → Option c.Key
import_pubkey c pubkey = c.create_public_key (c.from_base64 pubkey)

-- `Math.abs(now - timestamp) > SIGNATURE_MAX_AGE_MS`
is_stale : ℕ → ℕ → Bool
is_stale now timestamp =
    ltb (timestamp + signature_max_age_ms) now || ltb (now + signature_max_age_ms) timestamp

check_signature : (c : Crypto) → List ℕ → List ℕ → c.Body → ℕ → List ℕ → List ℕ → Bool
unfolding import_pubkey signature_base
check_signature c pubkey action body timestamp nonce signature = elim (import_pubkey c pubkey) [
  | none ↦ false
  | some key ↦
      elim (c.verify (signature_base c action body timestamp nonce) key (c.from_base64 signature)) [
        | none ↦ false
        | some answer ↦ answer
      ]
]

verify_at : (c : Crypto) → List ℕ → List ℕ → c.Body → Proof → Timestamp → ℕ → Bool
unfolding is_stale check_signature
verify_at c pubkey action body proof undefined now = false
verify_at c pubkey action body proof not_finite now = false
verify_at c pubkey action body proof (at timestamp) now =
    if is_stale now timestamp
    then false
    else check_signature c pubkey action body timestamp proof.nonce proof.signature

-- `verifyProof(pubkeyBase64, action, body, proof)`, at the reading `now` of the clock.
unfoldable pub verify_proof : (c : Crypto) → List ℕ → List ℕ → c.Body → Proof → ℕ → Bool
unfolding verify_at codes_eq
verify_proof c pubkey action body proof now =
    if proof.nonce == [] || proof.signature == []
    then false
    else verify_at c pubkey action body proof proof.timestamp now

pub record NonceSeen : Type 0 where
  pub ttl_ms : ℕ
  pub seen : Dict (List ℕ) ℕ

unfoldable pub init : Option ℕ → NonceSeen
init ttl = record { ttl_ms = or_default ttl signature_max_age_ms; seen = [] }

unfoldable pub sweep : NonceSeen → ℕ → NonceSeen
sweep s now =
    if ltb (length s.seen) 5000
    then s
    else record s { seen = Dict.retain (λ _ exp. not (ltb exp now)) s.seen }

unfoldable pub nonce_key : List ℕ → List ℕ → List ℕ
nonce_key topic nonce = topic ++ (space ∷ nonce)

unfoldable pub is_replay : Option ℕ → ℕ → Bool
is_replay none now = false
is_replay (some exp) now = leb now exp

-- `checkAndRecord(topic, nonce, now)`
unfoldable pub check_and_record : NonceSeen → List ℕ → List ℕ → ℕ → NonceSeen × Bool
unfolding sweep nonce_key is_replay
check_and_record s topic nonce now =
    let s' = sweep s now in
    let key = nonce_key topic nonce in
    if is_replay (Dict.lookup key s'.seen) now
    then (s', false)
    else (record s' { seen = Dict.insert key (now + s'.ttl_ms) s'.seen }, true)

-- `notifyProofRejected(req, action, topic, body)`: `claim` is the public key of the topic's claim, `t`
-- and `u` are the readings of the two checks.
unfoldable pub proof_rejected :
    (c : Crypto)
    → NonceSeen
    → Option (List ℕ)
    → List ℕ
    → List ℕ
    → c.Body
    → Proof
    → ℕ
    → ℕ
    → NonceSeen × Bool
unfolding verify_proof check_and_record
proof_rejected c s none action topic body proof t u = (s, false)
proof_rejected c s (some pubkey) action topic body proof t u =
    if verify_proof c pubkey action body proof t
    then (let (s', fresh) = check_and_record s topic proof.nonce u in (s', not fresh))
    else (s, true)
