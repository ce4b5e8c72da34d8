-- ===== src/Routing/Relay.antt =====
-- Messages that another node relays.
use tyo_mq.Prelude.{Bool, false, [], ◌&&◌, ◌==◌, codes_eq}
use tyo_mq.Prelude.Dict.{Dict}
use tyo_mq.Routing.{Member, Delivery, live, reliable, queued, failed, is_online}

abbrev pub receiver : Delivery → Member
receiver (live m) = m
receiver (reliable m) = m
receiver (queued m) = m
receiver (failed m) = m

-- A delivery to a connected consumer outside every group: the message is sent, or stored and sent, but not stored
-- for a consumer that is away.
unfoldable pub is_direct : Delivery → Bool
is_direct (live m) = is_online m && m.subscription.group == []
is_direct (reliable m) = is_online m && m.subscription.group == []
is_direct (queued m) = false
is_direct (failed m) = is_online m && m.subscription.group == []
