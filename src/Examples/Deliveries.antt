-- ===== src/Examples/Deliveries.antt =====
-- Published messages, for `Broker::publish` of src/broker.cpp.
use tinymq_broker.Base.{
  ◌≡◌, refl, Bytes, inr, [], ◌∷◌, codes, nat_equality, bytes_equality, bytes_beq, lookup,
  contains_text,
}
use tinymq_broker.Packet.Types.{PacketType}
use tinymq_broker.Packet.{Packet, make_packet}
use tinymq_broker.Broker.World.{Json}
use tinymq_broker.Broker.Publish.{publish}
use tinymq_broker.Broker.Delivery.{IsOrdinary}
use tinymq_broker.Base.{◌++◌, List, assign, All, if◌then◌else◌}
use tinymq_broker.Broker.Subscriptions.{add_subscriber, has_handle}
use tinymq_broker.Broker.Subscribed.{is_subscribed}
use tinymq_broker.Broker.Distinct.{IsDistinct, IsDistinct-empty, IsDistinct-add_subscriber}
use tinymq_broker.Broker.World.{Handle}
use tinymq_broker.Broker.Once.{sent_to, publish_once}
use tinymq_broker.Examples.Samples.{sample_world, sample_json}

abbrev pub message : Bytes
message = codes "21"

pub message-IsOrdinary : (json : Json) → IsOrdinary json message
unfolding contains_text
message-IsOrdinary json = inr (refl, refl, refl, refl, refl, refl, refl, refl, refl)

sample-IsDistinct : IsDistinct sample_world.topic_subscribers
unfolding add_subscriber has_handle assign lookup bytes_beq
sample-IsDistinct =
    IsDistinct-add_subscriber (codes "a/t") 3 ((codes "a/t", 2 ∷ []) ∷ [])
      (IsDistinct-add_subscriber (codes "a/t") 2 [] IsDistinct-empty)

publish_once_example :
    (sent : List (Handle × Packet)) × ((publish sample_json
        (codes "a/t")
        message
        sample_world).1.wire
      ≡ sample_world.wire ++ sent)
    × (sent_to 3 sent ≡ (if is_subscribed sample_world (codes "a/t") 3 then 1 else 0))
    × All (λ (e : Handle × Packet). e.1 ≡ make_packet PacketType.pub_ 0 (codes "{}")) sent
publish_once_example =
    publish_once sample_json 3 (codes "a/t") message (codes "{}") sample_world sample-IsDistinct
      (message-IsOrdinary sample_json) refl
