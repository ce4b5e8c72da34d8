-- ===== src/Tests/Names.antt =====
-- Concrete registries.
use tyo_mq.Prelude.{String, ◌≡◌, refl, none, some, [], if◌then◌else◌, string_eq}
use tyo_mq.Prelude.Dict
use tyo_mq.Prelude.Dict.{Dict, NodupKeys}
use tyo_mq.Registry.{
  Meta, Realm, ensure, socket_of, setup, find_recipient_socket, first_holder, disconnect,
}
use tyo_mq.Registry.Offline.{is_first, disconnect_lem}

-- "alice" and "anna" register as producers on one socket.
abbrev producers : Dict String Meta
producers = setup (setup [] "alice" "a" "s1") "anna" "b" "s1"

abbrev joint : Realm
joint = record { producers = producers; consumers = setup [] "bob" "c" "s2" }

producers-NodupKeys : NodupKeys joint.producers
unfolding setup Dict.insert Dict.lookup string_eq
producers-NodupKeys = (refl, (refl, tt))

consumers-NodupKeys : NodupKeys joint.consumers
unfolding setup Dict.insert Dict.lookup string_eq
consumers-NodupKeys = (refl, tt)

one_goes_offline :
    (find_recipient_socket (disconnect joint "s1" 5).0 "alice" ≡ none)
    × (find_recipient_socket (disconnect joint "s1" 5).0 "anna" ≡ some "s1")
    × (find_recipient_socket (disconnect joint "s1" 5).0 "bob" ≡ some "s2")
unfolding setup Dict.insert Dict.lookup find_recipient_socket disconnect first_holder ensure
    string_eq
one_goes_offline = (refl, refl, refl)

disconnect_lem_example :
    (socket_of (Dict.lookup "alice" (disconnect joint "s1" 5).0.producers) ≡ (
      if is_first "s1" "alice" joint.producers
      then none
      else socket_of (Dict.lookup "alice" joint.producers)))
    × (socket_of (Dict.lookup "alice" (disconnect joint "s1" 5).0.consumers) ≡ (
        if is_first "s1" "alice" joint.consumers
        then none
        else socket_of (Dict.lookup "alice" joint.consumers)))
disconnect_lem_example = disconnect_lem joint "s1" "alice" 5 producers-NodupKeys consumers-NodupKeys
