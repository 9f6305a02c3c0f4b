-- ===== src/Session/Acks.antt =====
-- The acknowledgements of src/session.cpp, and their place among what else the handlers send.
use tinymq_broker.Base.{
  ◌≡◌, refl, ◌∙◌, Bytes, true, false, some, none, [], ◌∷◌, ◌++◌, ◌==◌, nat_equality, bytes_equality,
  beq_self, is_empty, if◌then◌else◌, nat_beq, nat_beq_iff, arith, ◌<◌, length, ◌&&◌,
}
use mathlib.Core.List.{append_assoc}
use tinymq_broker.Packet.Types.{PacketType}
use tinymq_broker.Packet.{make_packet}
use tinymq_broker.Db.Listings.{Rendering}
use tinymq_broker.Broker.World.{
  Handle, World, ok, thrown, ◌>>=◌, ◌>>◌, gets, database, modify, send_packet, Json,
}
use tinymq_broker.Broker.Subscriptions.{
  subscribers_of, subscribe, subscribe_in_database, topic_id_or_register, unsubscribe,
  unsubscribe_in_database, cached_topic_id,
}
use tinymq_broker.Broker.Subscribed.{
  is_subscribed, is_subscribed-subscribe, is_subscribed-unsubscribe,
}
use tinymq_broker.Broker.Quiet.{SameLinks}
use tinymq_broker.Broker.Notify.{wrapper}
use tinymq_broker.Broker.Delivery.{to_each, IsOrdinary, publish-Sent}
use tinymq_broker.Broker.Thrown.{publish-thrown}
use tinymq_broker.Session.Handlers.{
  send_ack, ack_payload, when_authenticated, handle_subscribe, handle_unsubscribe, handle_publish,
}
use tinymq_broker.Session.Payloads.{parse_publish-format}

subscribe-Quiet :
    (h : Handle) (t : Bytes) (w : World)
    → ((subscribe h t w).0 ≡ ok tt) × ((subscribe h t w).1.wire ≡ w.wire)
unfolding subscribe subscribe_in_database topic_id_or_register ◌>>=◌ ◌>>◌ gets database modify
subscribe-Quiet h t w = ground arith

unsubscribe-Quiet :
    (h : Handle) (t : Bytes) (w : World)
    → ((unsubscribe h t w).0 ≡ ok tt) × ((unsubscribe h t w).1.wire ≡ w.wire)
unfolding unsubscribe unsubscribe_in_database cached_topic_id ◌>>=◌ ◌>>◌ gets database modify
unsubscribe-Quiet h t w = ground arith

-- SUB of an authenticated session with a topic returns, answers with one SUBACK and nothing else, and
-- from then on the session is subscribed to the topic and every other pair is as before, whatever the
-- database answers.
pub handle_subscribe-Acked :
    (h g : Handle) (t u : Bytes) (w : World)
    → (w.objects h).is_authenticated ≡ true
    → is_empty t ≡ false
    → let v = (handle_subscribe h t w).1 in
      ((handle_subscribe h t w).0 ≡ ok tt)
      × (v.wire ≡ w.wire ++ (h, make_packet PacketType.suback 0 []) ∷ [])
      × (is_subscribed v t h ≡ true)
      × (is_subscribed v u g ≡ (if t == u && nat_beq h g then true else is_subscribed w u g))
unfolding handle_subscribe when_authenticated send_ack ack_payload send_packet ◌>>=◌ ◌>>◌ gets
handle_subscribe-Acked h g t u w a e =
    let q = subscribe-Quiet h t w in
    rw (a, e, q.0, q.1)
      (
        refl,
        refl,
        is_subscribed-subscribe h h t t w ∙ ground (arith, beq_self t, nat_beq_iff h h),
        is_subscribed-subscribe h g t u w,
      )

-- UNSUB of an authenticated session with a topic returns, answers with one UNSUBACK and nothing else,
-- and from then on the session is not subscribed to the topic and every other pair is as before.
pub handle_unsubscribe-Acked :
    (h g : Handle) (t u : Bytes) (w : World)
    → (w.objects h).is_authenticated ≡ true
    → is_empty t ≡ false
    → let v = (handle_unsubscribe h t w).1 in
      ((handle_unsubscribe h t w).0 ≡ ok tt)
      × (v.wire ≡ w.wire ++ (h, make_packet PacketType.unsuback 0 []) ∷ [])
      × (is_subscribed v t h ≡ false)
      × (is_subscribed v u g ≡ (if t == u && nat_beq h g then false else is_subscribed w u g))
unfolding handle_unsubscribe when_authenticated send_ack ack_payload send_packet ◌>>=◌ ◌>>◌ gets
handle_unsubscribe-Acked h g t u w a e =
    let q = unsubscribe-Quiet h t w in
    rw (a, e, q.0, q.1)
      (
        refl,
        refl,
        is_subscribed-unsubscribe h h t t w ∙ ground (arith, beq_self t, nat_beq_iff h h),
        is_subscribed-unsubscribe h g t u w,
      )

module _ (json : Json) (r : Rendering) where
  -- PUB of an authenticated session with an ordinary message (`IsOrdinary`) that can be dumped once it
  -- is wrapped returns; the subscribers of the topic get the message, in order, and after them the
  -- publisher gets its PUBACK, whatever becomes of the log in the database.
  pub handle_publish-Acked :
      (h : Handle) (topic message payload : Bytes) (w : World)
      → (w.objects h).is_authenticated ≡ true
      → 0 < length message
      → IsOrdinary json message
      → json.dump (wrapper topic message) ≡ some payload
      → let done = handle_publish json r h (length topic ∷ topic ++ message) w in
        (done.0 ≡ ok tt)
        × (done.1.wire
            ≡ w.wire
              ++ (to_each
                    (subscribers_of topic w.topic_subscribers)
                    (make_packet PacketType.pub_ 0 payload)
                  ++ (h, make_packet PacketType.puback 0 []) ∷ []))
  unfolding handle_publish when_authenticated send_ack ack_payload send_packet ◌>>=◌ ◌>>◌ gets
  handle_publish-Acked h topic message payload w a n ordinary e =
      let s = publish-Sent json topic message payload w ordinary e in
      rw (a, parse_publish-format topic message n, s.0, s.1) (refl, append_assoc w.wire _ _)

  -- If such a message cannot be dumped and the topic has a subscriber, the exception leaves the
  -- handler of PUB; no one is sent anything, the publisher's PUBACK included, and session objects, the
  -- map of sessions and the subscriptions are as they were.
  pub handle_publish-thrown :
      (h : Handle) (topic message : Bytes) (w : World)
      → (w.objects h).is_authenticated ≡ true
      → 0 < length message
      → IsOrdinary json message
      → json.dump (wrapper topic message) ≡ none
      → is_empty (subscribers_of topic w.topic_subscribers) ≡ false
      → let done = handle_publish json r h (length topic ∷ topic ++ message) w in
        (done.0 ≡ thrown) × SameLinks done.1 w
  unfolding handle_publish when_authenticated ◌>>=◌ ◌>>◌ gets
  handle_publish-thrown h topic message w a n ordinary e nonempty =
      let s = publish-thrown json topic message w ordinary e nonempty in
      rw (a, parse_publish-format topic message n, s.0) (refl, s.1)
