-- ===== src/Broker/Publish.antt =====
-- `Broker::publish` of src/broker.cpp: control messages first, then the log and the distribution.
use tinymq_broker.Base.{
  ℕ, Bytes, false, ◌&&◌, not, Option, none, some, List, ◌++◌, nat_equality, bytes_equality,
  if◌then◌else◌, is_empty, ltb, length, take, codes, lookup, assign,
}
use tinymq_broker.Packet.Types.{PacketType}
use tinymq_broker.Packet.{make_packet}
use tinymq_broker.Db.Topics.{register_topic, get_topic_id}
use tinymq_broker.Db.Subscriptions.{log_message}
use tinymq_broker.Broker.World.{
  Handle, World, M, ◌>>=◌, ◌>>◌, pure, or_throw, catch_with, database, gets, modify, send_each,
  Json,
}
use tinymq_broker.Broker.Names.{extract_client_id}
use tinymq_broker.Broker.Subscriptions.{subscribers_of}
use tinymq_broker.Broker.Notify.{wrapper}
use tinymq_broker.Broker.Control.{control}

-- The preview that is logged: 100 bytes, and dots after a longer message.
unfoldable pub preview : Bytes → Bytes
preview message =
    if ltb 100 (length message) then take 100 message ++ codes "..." else take 100 message

unfoldable pub cache_id : Bytes → ℕ → World → World
cache_id topic id w = record w { topic_id_cache = assign topic id w.topic_id_cache }

-- The id from the cache, from the database, or from a new registration. The code also caches the
-- -1 of a lookup that fails after a registration; an entry of -1 is read as a missing one.
unfoldable pub published_topic_id : Bytes → Bytes → M (Option ℕ)
published_topic_id topic publisher = do
  cached ← gets (λ w. lookup topic w.topic_id_cache)
  elim cached [
    | some id ↦ pure (some id)
    | none ↦ do
      found ← database (get_topic_id topic)
      elim found [
        | some id ↦ do modify (cache_id topic id); pure (some id)
        | none ↦ do
          registered ← database (register_topic topic publisher)
          if registered
              then (do
                again ← database (get_topic_id topic)
                elim again [
                  | none ↦ pure none
                  | some id ↦ do modify (cache_id topic id); pure (some id)
                ])
              else pure none
      ]
  ]

unfoldable pub log_published : Bytes → Bytes → Bytes → M (Unit {0})
log_published publisher topic message = do
  id ← published_topic_id topic publisher
  elim id [
    | none ↦ pure tt
    | some i ↦ do r ← database (log_message publisher i (length message) (preview message)); pure tt
  ]

module _ (json : Json) where
  -- The `dump` stands outside every `try`.
  unfoldable pub deliver : List Handle → Bytes → Bytes → M (Unit {0})
  deliver subs topic message = if is_empty subs then pure tt else do
    payload ← or_throw (json.dump (wrapper topic message))
    send_each subs (make_packet PacketType.pub_ 0 payload)

  -- The subscribers are copied before the log is written.
  unfoldable pub distribute : Bytes → Bytes → M (Unit {0})
  distribute topic message = do
    subs ← gets (λ w. subscribers_of topic w.topic_subscribers)
    db ← gets (λ w. w.has_database)
    (if db && not (is_empty (extract_client_id topic))
        then log_published (extract_client_id topic) topic message
        else pure tt)
    deliver subs topic message

  -- An exception in the control part is caught, and the message is then distributed.
  unfoldable pub publish : Bytes → Bytes → M (Unit {0})
  publish topic message = do
    handled ← catch_with false (control json topic message)
    if handled then pure tt else distribute topic message
