-- ===== src/Examples/Acks.antt =====
-- Acknowledgements of src/session.cpp.
use tinymq_broker.Base.{
  ◌≡◌, refl, true, [], ◌∷◌, ◌++◌, ◌==◌, nat_equality, bytes_equality, nat_beq, ◌&&◌, codes,
  if◌then◌else◌, length, arith,
}
use tinymq_broker.Packet.Types.{PacketType}
use tinymq_broker.Packet.{make_packet}
use tinymq_broker.Broker.World.{ok}
use tinymq_broker.Broker.Subscribed.{is_subscribed}
use tinymq_broker.Broker.Subscriptions.{subscribers_of}
use tinymq_broker.Broker.Delivery.{to_each}
use tinymq_broker.Session.Handlers.{handle_subscribe, handle_publish}
use tinymq_broker.Session.Acks.{handle_subscribe-Acked, handle_publish-Acked}
use tinymq_broker.Examples.Samples.{sample_world, sample_json, sample_rendering}
use tinymq_broker.Examples.Deliveries.{message, message-IsOrdinary}

handle_subscribe-Acked_example :
    let v = (handle_subscribe 3 (codes "a/u") sample_world).1 in
    ((handle_subscribe 3 (codes "a/u") sample_world).0 ≡ ok tt)
    × (v.wire ≡ sample_world.wire ++ (3, make_packet PacketType.suback 0 []) ∷ [])
    × (is_subscribed v (codes "a/u") 3 ≡ true)
    × (is_subscribed v (codes "a/t") 2 ≡ (
        if codes "a/u" == codes "a/t" && nat_beq 3 2
        then true
        else is_subscribed sample_world (codes "a/t") 2))
handle_subscribe-Acked_example =
    handle_subscribe-Acked 3 2 (codes "a/u") (codes "a/t") sample_world refl refl

handle_publish-Acked_example :
    let done =
      handle_publish sample_json sample_rendering 3
        (length (codes "a/t") ∷ codes "a/t" ++ message)
        sample_world in
    (done.0 ≡ ok tt)
    × (done.1.wire
        ≡ sample_world.wire
          ++ (to_each
                (subscribers_of (codes "a/t") sample_world.topic_subscribers)
                (make_packet PacketType.pub_ 0 (codes "{}"))
              ++ (3, make_packet PacketType.puback 0 []) ∷ []))
handle_publish-Acked_example =
    handle_publish-Acked sample_json sample_rendering 3 (codes "a/t") message (codes "{}")
      sample_world refl (omega arith) (message-IsOrdinary sample_json) refl
