-- ===== src/Locks/KeepTopics.antt =====
-- subscribe, unsubscribe and the distribution of src/broker.cpp, cut at their locks, piece by piece.
use tinymq_broker.Base.{ℕ, false, refl, Bytes, List, [], ◌∷◌, nat_equality, bytes_equality}
use tinymq_broker.Broker.World.{Handle, World, Json}
use tinymq_broker.Broker.Known.{IsKnown-cache, IsKnown-add_subscriber, IsKnown-remove_subscriber}
use tinymq_broker.Broker.Distinct.{IsDistinct-add_subscriber, IsDistinct-remove_subscriber}
use tinymq_broker.Broker.Reaches.{modify-Reaches}
use tinymq_broker.Broker.Calls.{calling}
use tinymq_broker.Broker.Publish.{cache_id}
use tinymq_broker.Locks.Prog.{topic_cache_mutex, changes_under}
use tinymq_broker.Locks.Order.{topics-Guards, cache-Guards}
use tinymq_broker.Locks.Safe.{
  IsSafe, keeping, bind-IsSafe, then-IsSafe, option-IsSafe, if-IsSafe, changes_under-IsSafe,
  subscribers-IsSafe,
}
use tinymq_broker.Locks.Methods.{
  finding_topic, recording_subscription, subscribing, finding_cached_topic,
  recording_unsubscription, unsubscribing, finding_published_topic, logging_message, delivering,
  distributing,
}

finding_topic-IsSafe :
    (hs : List Handle) (topic owner : Bytes) → IsSafe hs (finding_topic topic owner)
unfolding finding_topic
finding_topic-IsSafe hs topic owner =
    bind-IsSafe _ _ _ (search (keeping, calling))
      λ found. option-IsSafe _ found _ _ (search (keeping, calling)) λ id. search (keeping)

recording_subscription-IsSafe :
    (hs : List Handle) (id topic owner : Bytes) → IsSafe hs (recording_subscription id topic owner)
unfolding recording_subscription
recording_subscription-IsSafe hs id topic owner =
    bind-IsSafe _ _ _ (finding_topic-IsSafe hs topic owner)
      λ found. option-IsSafe _ found _ _ (search (keeping)) λ i. search (keeping, calling)

pub subscribing-IsSafe : (h : Handle) (topic : Bytes) → IsSafe (h ∷ []) (subscribing h topic)
unfolding subscribing
subscribing-IsSafe h topic = bind-IsSafe _ _ _ (search (keeping)) λ s.
    bind-IsSafe _ _ _ (search (keeping)) λ db.
      then-IsSafe _ _ _ (search (keeping, recording_subscription-IsSafe)) (
        changes_under-IsSafe _ _ _
          (modify-Reaches _ _ (λ w. refl)
            (λ w. IsDistinct-add_subscriber topic h w.topic_subscribers) (λ w g a. a)
            (λ w n. IsKnown-add_subscriber topic h w n.0))
          tt (topics-Guards false _))

cached-IsSafe :
    (hs : List Handle) (f : World → List (Bytes × ℕ))
    → IsSafe hs (changes_under topic_cache_mutex (λ w. record w { topic_id_cache = f w }))
cached-IsSafe hs f =
    changes_under-IsSafe _ _ _
      (modify-Reaches _ _ (λ w. refl) (λ w d. d) (λ w g a. a) (λ w n. IsKnown-cache w (f w))) tt
      (cache-Guards false f)

cache_id-IsSafe :
    (hs : List Handle) (topic : Bytes) (id : ℕ)
    → IsSafe hs (changes_under topic_cache_mutex (cache_id topic id))
unfolding cache_id
cache_id-IsSafe hs topic id = cached-IsSafe _ _

finding_cached_topic-IsSafe :
    (hs : List Handle) (topic : Bytes) → IsSafe hs (finding_cached_topic topic)
unfolding finding_cached_topic
finding_cached_topic-IsSafe hs topic = bind-IsSafe _ _ _ (search (keeping)) λ cached.
    option-IsSafe _ cached _ _
      (bind-IsSafe _ _ _ (search (keeping, calling)) λ found.
        option-IsSafe _ found _ _ (search (keeping))
          λ id. then-IsSafe _ _ _ (cached-IsSafe _ _) (search (keeping)))
      λ id. search (keeping)

recording_unsubscription-IsSafe :
    (hs : List Handle) (id topic : Bytes) → IsSafe hs (recording_unsubscription id topic)
unfolding recording_unsubscription
recording_unsubscription-IsSafe hs id topic =
    bind-IsSafe _ _ _ (finding_cached_topic-IsSafe hs topic)
      λ found. option-IsSafe _ found _ _ (search (keeping)) λ i. search (keeping, calling)

pub unsubscribing-IsSafe :
    (hs : List Handle) (h : Handle) (topic : Bytes) → IsSafe hs (unsubscribing h topic)
unfolding unsubscribing
unsubscribing-IsSafe hs h topic = bind-IsSafe _ _ _ (search (keeping)) λ s.
    bind-IsSafe _ _ _ (search (keeping)) λ db.
      then-IsSafe _ _ _ (search (keeping, recording_unsubscription-IsSafe)) (
        changes_under-IsSafe _ _ _
          (modify-Reaches _ _ (λ w. refl)
            (λ w. IsDistinct-remove_subscriber topic h w.topic_subscribers) (λ w g a. a)
            (λ w n. IsKnown-remove_subscriber topic h w))
          tt (topics-Guards false _))

finding_published_topic-IsSafe :
    (hs : List Handle) (topic publisher : Bytes)
    → IsSafe hs (finding_published_topic topic publisher)
unfolding finding_published_topic
finding_published_topic-IsSafe hs topic publisher = bind-IsSafe _ _ _ (search (keeping)) λ cached.
    option-IsSafe _ cached _ _
      (bind-IsSafe _ _ _ (search (keeping, calling)) λ found.
        option-IsSafe _ found _ _
          (bind-IsSafe _ _ _ (search (keeping, calling)) λ registered.
            if-IsSafe _ registered _ _
              (bind-IsSafe _ _ _ (search (keeping, calling)) λ again.
                option-IsSafe _ again _ _ (search (keeping))
                  λ id. search (keeping, cache_id-IsSafe))
              (search (keeping)))
          λ id. search (keeping, cache_id-IsSafe))
      λ id. search (keeping)

logging_message-IsSafe :
    (hs : List Handle) (publisher topic message : Bytes)
    → IsSafe hs (logging_message publisher topic message)
unfolding logging_message
logging_message-IsSafe hs publisher topic message =
    bind-IsSafe _ _ _ (finding_published_topic-IsSafe hs topic publisher)
      λ id. option-IsSafe _ id _ _ (search (keeping)) λ i. search (keeping, calling)

module _ (json : Json) where
  delivering-IsSafe :
      (hs : List Handle) (topic message : Bytes) → IsSafe hs (delivering json hs topic message)
  unfolding delivering
  delivering-IsSafe hs topic message = search (keeping) depth 12

  pub distributing-IsSafe :
      (hs : List Handle) (topic message : Bytes) → IsSafe hs (distributing json topic message)
  unfolding distributing
  distributing-IsSafe hs topic message =
      subscribers-IsSafe _ topic _
        λ gs. search (keeping, logging_message-IsSafe, delivering-IsSafe) depth 12
