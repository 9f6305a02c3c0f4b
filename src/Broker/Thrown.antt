-- ===== src/Broker/Thrown.antt =====
-- What `Broker::publish` of src/broker.cpp does with a message that cannot be dumped.
use tinymq_broker.Base.{
  ◌≡◌, refl, Bytes, false, ◌&&◌, not, none, List, nat_equality, bytes_equality, if◌then◌else◌,
  is_empty,
}
use tinymq_broker.Broker.World.{
  Handle, World, thrown, M, ◌>>=◌, ◌>>◌, pure, Json, gets, database, modify,
}
use tinymq_broker.Broker.Names.{extract_client_id}
use tinymq_broker.Broker.Subscriptions.{subscribers_of}
use tinymq_broker.Broker.Notify.{wrapper}
use tinymq_broker.Broker.Publish.{publish, distribute, deliver, log_published}
use tinymq_broker.Broker.Quiet.{SameLinks, Quiet}
use tinymq_broker.Broker.Delivery.{IsOrdinary, publish-IsOrdinary, log_step-Quiet}

module _ (json : Json) where
  deliver-thrown :
      (subs : List Handle) (topic message : Bytes) (w : World)
      → json.dump (wrapper topic message) ≡ none
      → is_empty subs ≡ false
      → deliver json subs topic message w ≡ (thrown, w)
  unfolding deliver ◌>>=◌ ◌>>◌ gets database modify
  deliver-thrown subs topic message w e nonempty = rw (nonempty, e) refl

  after-Quiet_thrown :
      (m : M (Unit {0})) (subs : List Handle) (topic message : Bytes) (w : World)
      → Quiet m
      → json.dump (wrapper topic message) ≡ none
      → is_empty subs ≡ false
      → (((m >> deliver json subs topic message) w).0 ≡ thrown)
        × SameLinks ((m >> deliver json subs topic message) w).1 w
  unfolding ◌>>=◌ ◌>>◌ gets database modify
  after-Quiet_thrown m subs topic message w quiet e nonempty =
      let q = quiet w in
      rw (q.0.1, deliver-thrown subs topic message (m w).1 e nonempty) (refl, q.1)

  -- If an ordinary message (`IsOrdinary`) cannot be dumped once it is wrapped, as when its bytes are
  -- no UTF-8, and the topic has a subscriber, then the exception leaves `publish`, nothing is sent, and
  -- session objects, the map of sessions and the subscriptions are as they were.
  pub publish-thrown :
      (topic message : Bytes) (w : World)
      → IsOrdinary json message
      → json.dump (wrapper topic message) ≡ none
      → is_empty (subscribers_of topic w.topic_subscribers) ≡ false
      → ((publish json topic message w).0 ≡ thrown) × SameLinks (publish json topic message w).1 w
  unfolding distribute ◌>>=◌ ◌>>◌ gets database modify
  publish-thrown topic message w ordinary e nonempty =
      rw (publish-IsOrdinary json topic message w ordinary) (
        after-Quiet_thrown
          (if w.has_database && not (is_empty (extract_client_id topic))
            then log_published (extract_client_id topic) topic message
            else pure tt)
          (subscribers_of topic w.topic_subscribers) topic message w
          (log_step-Quiet json topic message
            (w.has_database && not (is_empty (extract_client_id topic))))
          e nonempty)
