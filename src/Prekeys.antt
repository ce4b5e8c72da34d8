-- ===== src/Prekeys.antt =====
-- The prekey directory of lib/server.js: the handlers PREKEY_PUBLISH and PREKEY_TAKE on the bundles of a
-- realm. A parsed message is a record: a number that is missing or no number is 0, as `Number(x) || 0`
-- makes it, and a text that is missing or no string is the empty one. What the handlers tell the durable
-- store is listed in the order of the calls. The three limits come from the package tyo-mq-protocol.
pub mod Pool
pub mod Refill
pub mod Bounds
use tyo_mq.Prelude.{
  ℕ, suc, String, Bool, true, false, Option, none, some, List, [], ◌∷◌, ◌++◌, ◌&&◌, ◌||◌, length,
  leb, ltb, not, take, if◌then◌else◌, ◌==◌, string_eq, contains,
}
use tyo_mq.Prelude.Dict
use tyo_mq.Prelude.Dict.{Dict}
use Prim.Native.String.{count}

pub record OneTime : Type 0 where
  pub id : ℕ
  pub key : String

pub record Bundle : Type 0 where
  pub identity_key : String
  pub registration_id : ℕ
  pub device_id : ℕ
  pub signed_prekey_id : ℕ
  pub signed_prekey : String
  pub signed_prekey_sig : String
  pub kyber_prekey_id : ℕ
  pub kyber_prekey : String
  pub kyber_prekey_sig : String
  pub updated_at : ℕ
  pub one_time : List OneTime

-- One entry of `one_time_prekeys`: the id is missing if it is no finite number.
pub record RawOneTime : Type 0 where
  pub id : Option ℕ
  pub key : String

pub record Publish : Type 0 where
  pub identity : String
  pub identity_key : String
  pub registration_id : ℕ
  pub device_id : ℕ
  pub signed_prekey_id : ℕ
  pub signed_prekey : String
  pub signed_prekey_sig : String
  pub kyber_prekey_id : ℕ
  pub kyber_prekey : String
  pub kyber_prekey_sig : String
  pub one_time_prekeys : List RawOneTime

pub data Incoming : Type 0 where
  invalid_json : Incoming
  publish : Publish → Incoming

-- The answer to the callback.
pub data Reply : Type 0 where
  refused : ℕ → Reply
  published : ℕ → Reply

pub data StoreCall : Type 0 where
  put_bundle : String → Bundle → StoreCall
  consume_one_time : String → ℕ → StoreCall

abbrev pub Directory : Type 0
Directory = Dict String Bundle

-- What a take hands out: the bundle as it was left, and the one-time prekey if there was one.
pub data Taken : Type 0 where
  not_found : Taken
  found : Bundle → Option OneTime → Taken

-- `Number(device_id) || 1`
abbrev or_one : ℕ → ℕ
or_one n = if leb n 0 then 1 else n

module _ (batch_max pool_max max_key_length : ℕ) where
  -- `prekeyFieldOk(v)`; the length is that of the text.
  prekey_field_ok : String → Bool
  prekey_field_ok v = not (v == "") && leb (count v) max_key_length

  required_ok : Publish → Bool
  unfolding prekey_field_ok
  required_ok obj =
      prekey_field_ok obj.identity_key
      && prekey_field_ok obj.signed_prekey
      && prekey_field_ok obj.signed_prekey_sig
      && prekey_field_ok obj.kyber_prekey
      && prekey_field_ok obj.kyber_prekey_sig

  clean_entry : RawOneTime → Option ℕ → Option OneTime
  unfolding prekey_field_ok
  clean_entry e none = none
  clean_entry e (some id) =
      if prekey_field_ok e.key then some (record { id = id; key = e.key }) else none

  cons? : Option OneTime → Option (List OneTime) → Option (List OneTime)
  cons? none rest = none
  cons? (some e) none = none
  cons? (some e) (some es) = some (e ∷ es)

  -- The loop that fills `cleanedOneTime`, or nothing at the first bad entry.
  unfoldable pub clean : List RawOneTime → Option (List OneTime)
  unfolding clean_entry cons?
  clean [] = some []
  clean (e ∷ es) = cons? (clean_entry e e.id) (clean es)

  -- The pool to append to: empty for a new identity key.
  kept_pool : Option Bundle → String → List OneTime
  kept_pool none identity_key = []
  kept_pool (some bundle) identity_key =
      if not (bundle.identity_key == "") && not (bundle.identity_key == identity_key)
      then []
      else bundle.one_time

  unfoldable pub new_bundle : Option Bundle → Publish → List OneTime → ℕ → Bundle
  unfolding kept_pool
  new_bundle old obj cleaned now = record {
    identity_key = obj.identity_key;
    registration_id = obj.registration_id;
    device_id = or_one obj.device_id;
    signed_prekey_id = obj.signed_prekey_id;
    signed_prekey = obj.signed_prekey;
    signed_prekey_sig = obj.signed_prekey_sig;
    kyber_prekey_id = obj.kyber_prekey_id;
    kyber_prekey = obj.kyber_prekey;
    kyber_prekey_sig = obj.kyber_prekey_sig;
    updated_at = now;
    one_time = take pool_max (kept_pool old obj.identity_key ++ cleaned);
  }

  store_bundle : Directory → Publish → List OneTime → ℕ → Directory × Reply × List StoreCall
  unfolding new_bundle
  store_bundle d obj cleaned now =
      let bundle = new_bundle (Dict.lookup obj.identity d) obj cleaned now in
      (
        Dict.insert obj.identity bundle d,
        published (length bundle.one_time),
        put_bundle obj.identity bundle ∷ [],
      )

  store_cleaned :
      Directory → Publish → Option (List OneTime) → ℕ → Directory × Reply × List StoreCall
  unfolding store_bundle
  store_cleaned d obj none now = (d, refused 400, [])
  store_cleaned d obj (some cleaned) now = store_bundle d obj cleaned now

  -- PREKEY_PUBLISH from a connection that has registered the identities `owned`.
  unfoldable pub prekey_publish :
      Directory → List String → Incoming → ℕ → Directory × Reply × List StoreCall
  unfolding required_ok clean store_cleaned
  prekey_publish d owned invalid_json now = (d, refused 400, [])
  prekey_publish d owned (publish obj) now =
      if obj.identity == ""
      then (d, refused 400, [])
      else if not (contains owned obj.identity)
      then (d, refused 403, [])
      else if not (required_ok obj)
      then (d, refused 400, [])
      else if ltb batch_max (length obj.one_time_prekeys)
      then (d, refused 400, [])
      else store_cleaned d obj (clean obj.one_time_prekeys) now

take_from : Directory → String → Bundle → List OneTime → Directory × Taken × List StoreCall
take_from d identity bundle [] = (d, found bundle none, [])
take_from d identity bundle (first ∷ rest) =
    let bundle' = record bundle { one_time = rest } in
    (
      Dict.insert identity bundle' d,
      found bundle' (some first),
      consume_one_time identity first.id ∷ [],
    )

take_found : Directory → String → Option Bundle → Directory × Taken × List StoreCall
unfolding take_from
take_found d identity none = (d, not_found, [])
take_found d identity (some bundle) =
    if bundle.identity_key == ""
    then (d, not_found, [])
    else take_from d identity bundle bundle.one_time

-- PREKEY_TAKE; invalid JSON and a missing identity are the empty identity, which is never found.
unfoldable pub prekey_take : Directory → String → Directory × Taken × List StoreCall
unfolding take_found
prekey_take d identity =
    if identity == "" then (d, not_found, []) else take_found d identity (Dict.lookup identity d)
