-- ===== src/Locks/Alone.antt =====
-- The methods cut at their locks against those of src/broker.cpp in one piece.
use tinymq_broker.Base.{◌≡◌, refl, Bytes, List, Option, none, some, lookup, assign, bytes_equality}
use tinymq_broker.Broker.World.{Session, Handle, World, Json, modify, ok}
use tinymq_broker.Broker.Sessions.{
  register_in_database, register_session, enter_session, log_disconnect, remove_session,
  drop_everywhere, forget_session,
}
use tinymq_broker.Broker.Subscriptions.{
  topic_id_or_register, subscribe_in_database, subscribe, cached_topic_id, unsubscribe_in_database,
  unsubscribe,
}
use tinymq_broker.Broker.Publish.{published_topic_id, log_published, deliver, distribute}
use tinymq_broker.Locks.Prog.{
  ret, ◌>>◌, ◌>>=◌, alone, changes, changes_under, sessions_mutex, topics_mutex,
}
use tinymq_broker.Locks.Runs.{holding-Runs, Runs, running, bind-Runs, option-Runs, if-Runs}
use tinymq_broker.Locks.Methods.{
  dropping_predecessor, entering_session, assign_session, erase_session, drop_session,
  registering_client, registering_session, logging_disconnect, removing_session, finding_topic,
  recording_subscription, subscribing, finding_cached_topic, recording_unsubscription,
  unsubscribing, finding_published_topic, logging_message, delivering, distributing,
}

registering_client-Runs : (s : Session) → Runs (registering_client s) (register_in_database s)
unfolding registering_client register_in_database
registering_client-Runs s = option-Runs s.endpoint _ _ _ _ (search (running)) λ e. search (running)

alone-entering :
    (id : Bytes) (h : Handle) (w : World) (found : Option Handle)
    → alone
        (elim found [ none ↦ ret tt | some old ↦ changes_under topics_mutex (drop_session old) ]
          >>= λ _. changes (assign_session id h))
        w
      ≡ (
        ok tt,
        record w {
          topic_subscribers = elim found [
            | none ↦ w.topic_subscribers
            | some old ↦ drop_everywhere old w.topic_subscribers
          ];
          sessions = assign id h w.sessions;
        },
      )
unfolding alone ◌>>=◌
alone-entering id h w none = refl
alone-entering id h w (some old) = refl

entering-Runs :
    (id : Bytes) (h : Handle)
    → Runs (do dropping_predecessor id; changes (assign_session id h)) (modify (enter_session id h))
unfolding modify alone ◌>>◌ ◌>>=◌ dropping_predecessor enter_session
entering-Runs id h = record { same = λ w. alone-entering id h w (lookup id w.sessions) }

entering_session-Runs : (h : Handle) → Runs (entering_session h) (register_session h)
unfolding entering_session register_session
entering_session-Runs h = search (running, registering_client-Runs, entering-Runs) depth 12

pub registering_session-Runs : (h : Handle) → Runs (registering_session h) (register_session h)
unfolding registering_session
registering_session-Runs h = holding-Runs _ _ (entering_session-Runs h)

logging_disconnect-Runs : (id : Bytes) → Runs (logging_disconnect id) (log_disconnect id)
unfolding logging_disconnect log_disconnect
logging_disconnect-Runs id = search (running) depth 12

forgetting-Runs :
    (id : Bytes) (h : Handle)
    → Runs
        (do
          changes_under sessions_mutex (erase_session id)
          changes_under topics_mutex (drop_session h))
        (modify (forget_session id h))
unfolding alone ◌>>◌ ◌>>=◌ modify forget_session
forgetting-Runs id h = record { same = λ w. refl }

pub removing_session-Runs : (h : Handle) → Runs (removing_session h) (remove_session h)
unfolding removing_session remove_session
removing_session-Runs h = search (running, logging_disconnect-Runs, forgetting-Runs) depth 12

finding_topic-Runs :
    (topic owner : Bytes) → Runs (finding_topic topic owner) (topic_id_or_register topic owner)
unfolding finding_topic topic_id_or_register
finding_topic-Runs topic owner =
    bind-Runs _ _ _ _ (search (running))
      λ found. option-Runs found _ _ _ _ (search (running)) λ id. search (running)

recording_subscription-Runs :
    (id topic owner : Bytes)
    → Runs (recording_subscription id topic owner) (subscribe_in_database id topic owner)
unfolding recording_subscription subscribe_in_database
recording_subscription-Runs id topic owner =
    bind-Runs _ _ _ _ (finding_topic-Runs topic owner)
      λ found. option-Runs found _ _ _ _ (search (running)) λ i. search (running)

pub subscribing-Runs : (h : Handle) (topic : Bytes) → Runs (subscribing h topic) (subscribe h topic)
unfolding subscribing subscribe
subscribing-Runs h topic = search (running, recording_subscription-Runs) depth 12

finding_cached_topic-Runs :
    (topic : Bytes) → Runs (finding_cached_topic topic) (cached_topic_id topic)
unfolding finding_cached_topic cached_topic_id
finding_cached_topic-Runs topic = bind-Runs _ _ _ _ (search (running)) λ cached.
    option-Runs cached _ _ _ _
      (bind-Runs _ _ _ _ (search (running))
        λ found. option-Runs found _ _ _ _ (search (running)) λ id. search (running))
      λ id. search (running)

recording_unsubscription-Runs :
    (id topic : Bytes) → Runs (recording_unsubscription id topic) (unsubscribe_in_database id topic)
unfolding recording_unsubscription unsubscribe_in_database
recording_unsubscription-Runs id topic =
    bind-Runs _ _ _ _ (finding_cached_topic-Runs topic)
      λ found. option-Runs found _ _ _ _ (search (running)) λ i. search (running)

pub unsubscribing-Runs :
    (h : Handle) (topic : Bytes) → Runs (unsubscribing h topic) (unsubscribe h topic)
unfolding unsubscribing unsubscribe
unsubscribing-Runs h topic = search (running, recording_unsubscription-Runs) depth 12

finding_published_topic-Runs :
    (topic publisher : Bytes)
    → Runs (finding_published_topic topic publisher) (published_topic_id topic publisher)
unfolding finding_published_topic published_topic_id
finding_published_topic-Runs topic publisher = bind-Runs _ _ _ _ (search (running)) λ cached.
    option-Runs cached _ _ _ _
      (bind-Runs _ _ _ _ (search (running)) λ found.
        option-Runs found _ _ _ _
          (bind-Runs _ _ _ _ (search (running)) λ registered.
            if-Runs registered _ _ _ _
              (bind-Runs _ _ _ _ (search (running))
                λ again. option-Runs again _ _ _ _ (search (running)) λ id. search (running))
              (search (running)))
          λ id. search (running))
      λ id. search (running)

logging_message-Runs :
    (publisher topic message : Bytes)
    → Runs (logging_message publisher topic message) (log_published publisher topic message)
unfolding logging_message log_published
logging_message-Runs publisher topic message =
    bind-Runs _ _ _ _ (finding_published_topic-Runs topic publisher)
      λ id. option-Runs id _ _ _ _ (search (running)) λ i. search (running)

module _ (json : Json) where
  delivering-Runs :
      (hs : List Handle) (topic message : Bytes)
      → Runs (delivering json hs topic message) (deliver json hs topic message)
  unfolding delivering deliver
  delivering-Runs hs topic message = search (running) depth 12

  pub distributing-Runs :
      (topic message : Bytes)
      → Runs (distributing json topic message) (distribute json topic message)
  unfolding distributing distribute
  distributing-Runs topic message = search (running, logging_message-Runs, delivering-Runs) depth 12
