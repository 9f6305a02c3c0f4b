-- ===== src/Locks/Methods.antt =====
-- The methods of src/broker.cpp on sessions, subscriptions and publications, cut at their locks:
-- other threads can run between any two pieces, unless sessions_mutex_ is kept over them. The client
-- id of the session, which the code reads through a reference, is read once.
use tinymq_broker.Base.{
  ℕ, Bytes, ◌&&◌, not, Option, none, some, List, is_empty, if◌then◌else◌, nat_equality,
  bytes_equality, length, lookup, erase, assign,
}
use tinymq_broker.Packet.Types.{PacketType}
use tinymq_broker.Packet.{make_packet}
use tinymq_broker.Db.Clients.{register_client, log_client_disconnect}
use tinymq_broker.Db.Topics.{get_topic_id, register_topic}
use tinymq_broker.Db.Subscriptions.{add_subscription, remove_subscription, log_message}
use tinymq_broker.Broker.World.{Session, Handle, World, Json}
use tinymq_broker.Broker.Names.{extract_client_id}
use tinymq_broker.Broker.Sessions.{drop_everywhere}
use tinymq_broker.Broker.Subscriptions.{add_subscriber, remove_subscriber, subscribers_of}
use tinymq_broker.Broker.Notify.{wrapper}
use tinymq_broker.Broker.Publish.{cache_id, preview}
use tinymq_broker.Locks.Prog.{
  Prog, ret, returns, ◌>>=◌, ◌>>◌, reads, calls, changes, changes_under, reads_under, holding,
  topics_mutex, sessions_mutex, topic_cache_mutex, sends_each,
}

abbrev pub assign_session : Bytes → Handle → World → World
assign_session client_id h w = record w { sessions = assign client_id h w.sessions }

abbrev pub erase_session : Bytes → World → World
erase_session client_id w = record w { sessions = erase client_id w.sessions }

abbrev pub drop_session : Handle → World → World
drop_session h w = record w { topic_subscribers = drop_everywhere h w.topic_subscribers }

unfoldable pub registering_client : Session → Prog (Unit {0})
registering_client s = elim s.endpoint [
  | none ↦ ret tt
  | some e ↦ do r ← calls (register_client s.client_id e.0 e.1); ret tt
]

-- The session that held the client id is taken from every topic.
unfoldable pub dropping_predecessor : Bytes → Prog (Unit {0})
dropping_predecessor client_id = do
  found ← reads (λ w. lookup client_id w.sessions)
  elim found [ none ↦ ret tt | some old ↦ changes_under topics_mutex (drop_session old) ]

unfoldable pub entering_session : Handle → Prog (Unit {0})
entering_session h = do
  s ← reads (λ w. w.objects h)
  db ← reads (λ w. w.has_database)
  (if db && s.is_authenticated then registering_client s else ret tt)
  dropping_predecessor s.client_id
  changes (assign_session s.client_id h)

unfoldable pub registering_session : Handle → Prog (Unit {0})
registering_session h = holding (entering_session h)

unfoldable pub logging_disconnect : Bytes → Prog (Unit {0})
logging_disconnect client_id = do
  db ← reads (λ w. w.has_database)
  if db then (do r ← calls (log_client_disconnect client_id); ret tt) else ret tt

unfoldable pub removing_session : Handle → Prog (Unit {0})
removing_session h = do
  s ← reads (λ w. w.objects h)
  if is_empty s.client_id then ret tt else do
    logging_disconnect s.client_id
    changes_under sessions_mutex (erase_session s.client_id)
    changes_under topics_mutex (drop_session h)

unfoldable pub finding_topic : Bytes → Bytes → Prog (Option ℕ)
finding_topic topic owner = do
  found ← calls (get_topic_id topic)
  elim found [
    | some id ↦ ret (some id)
    | none ↦ do
      registered ← calls (register_topic topic owner)
      if registered then calls (get_topic_id topic) else ret none
  ]

unfoldable pub recording_subscription : Bytes → Bytes → Bytes → Prog (Unit {0})
recording_subscription client_id topic owner = do
  id ← finding_topic topic owner
  elim id [ none ↦ ret tt | some i ↦ do r ← calls (add_subscription client_id i); ret tt ]

unfoldable pub subscribing : Handle → Bytes → Prog (Unit {0})
subscribing h topic = do
  s ← reads (λ w. w.objects h)
  db ← reads (λ w. w.has_database)
  (if not (is_empty (extract_client_id topic)) && db
      then recording_subscription s.client_id topic (extract_client_id topic)
      else ret tt)
  changes_under topics_mutex
      (λ w. record w { topic_subscribers = add_subscriber topic h w.topic_subscribers })

unfoldable pub finding_cached_topic : Bytes → Prog (Option ℕ)
finding_cached_topic topic = do
  cached ← reads_under topic_cache_mutex (λ w. lookup topic w.topic_id_cache)
  elim cached [
    | some id ↦ ret (some id)
    | none ↦ do
      found ← calls (get_topic_id topic)
      elim found [
        | none ↦ ret none
        | some id ↦ do
          changes_under topic_cache_mutex
              (λ w. record w { topic_id_cache = assign topic id w.topic_id_cache })
          ret (some id)
      ]
  ]

unfoldable pub recording_unsubscription : Bytes → Bytes → Prog (Unit {0})
recording_unsubscription client_id topic = do
  id ← finding_cached_topic topic
  elim id [ none ↦ ret tt | some i ↦ do r ← calls (remove_subscription client_id i); ret tt ]

unfoldable pub unsubscribing : Handle → Bytes → Prog (Unit {0})
unsubscribing h topic = do
  s ← reads (λ w. w.objects h)
  db ← reads (λ w. w.has_database)
  (if db then recording_unsubscription s.client_id topic else ret tt)
  changes_under topics_mutex
      (λ w. record w { topic_subscribers = remove_subscriber topic h w.topic_subscribers })

unfoldable pub finding_published_topic : Bytes → Bytes → Prog (Option ℕ)
finding_published_topic topic publisher = do
  cached ← reads_under topic_cache_mutex (λ w. lookup topic w.topic_id_cache)
  elim cached [
    | some id ↦ ret (some id)
    | none ↦ do
      found ← calls (get_topic_id topic)
      elim found [
        | some id ↦ do changes_under topic_cache_mutex (cache_id topic id); ret (some id)
        | none ↦ do
          registered ← calls (register_topic topic publisher)
          if registered
              then (do
                again ← calls (get_topic_id topic)
                elim again [
                  | none ↦ ret none
                  | some id ↦ do changes_under topic_cache_mutex (cache_id topic id); ret (some id)
                ])
              else ret none
      ]
  ]

unfoldable pub logging_message : Bytes → Bytes → Bytes → Prog (Unit {0})
logging_message publisher topic message = do
  id ← finding_published_topic topic publisher
  elim id [
    | none ↦ ret tt
    | some i ↦ do r ← calls (log_message publisher i (length message) (preview message)); ret tt
  ]

module _ (json : Json) where
  unfoldable pub delivering : List Handle → Bytes → Bytes → Prog (Unit {0})
  delivering subs topic message = if is_empty subs then ret tt else do
    payload ← returns (json.dump (wrapper topic message))
    sends_each subs (make_packet PacketType.pub_ 0 payload)

  unfoldable pub distributing : Bytes → Bytes → Prog (Unit {0})
  distributing topic message = do
    subs ← reads_under topics_mutex (λ w. subscribers_of topic w.topic_subscribers)
    db ← reads (λ w. w.has_database)
    (if db && not (is_empty (extract_client_id topic))
        then logging_message (extract_client_id topic) topic message
        else ret tt)
    delivering subs topic message
