-- ===== src/Routing/Reach.antt =====
-- Which subscriptions outside the groups a message is for, and what each of them gets.
pub mod Matching
use tyo_mq.Prelude.{◌≡◌, ◌≢◌, ◌⊎◌, Bool, true, false, [], not, ◌&&◌, ◌||◌, ◌==◌, codes_eq}
use tyo_mq.Prelude.Dict
use tyo_mq.Prelude.Dict.{Dict}
use tyo_mq.Routing.{Options, Member, Delivery, live, reliable, queued, consumer_of}

-- What a subscription gets: the message at once on a connection, or through the store if it acknowledges;
-- and the store keeps it for a consumer that is away.
pub data Due (options : Options) (m : Member) : Delivery → Type 0 where
  at_once : m.socket ≢ [] → m.subscription.ack_required ≡ false → Due options m (live m)
  with_ack :
      m.socket ≢ []
      → m.subscription.ack_required ≡ true
      → (m.subscription.durable ≡ true) ⊎ (options.guaranteed ≡ true)
      → Due options m (reliable m)
  for_later :
      m.socket ≡ []
      → (m.subscription.durable ≡ true) ⊎ (options.guaranteed ≡ true)
      → Due options m (queued m)

-- The delivery to this member does not throw: the member is away, does not acknowledge, or its messages
-- are stored.
abbrev pub can_take : Options → Member → Bool
can_take options m =
    m.socket == []
    || not m.subscription.ack_required
    || m.subscription.durable
    || options.guaranteed
