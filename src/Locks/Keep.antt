-- ===== src/Locks/Keep.antt =====
-- register_session and remove_session of src/broker.cpp, cut at their locks, piece by piece.
use tinymq_broker.Base.{
  refl, Bytes, Bool, true, false, List, [], ◌∷◌, lookup-assign, lookup-erase, arith, nat_equality,
  bytes_equality,
}
use tinymq_broker.Broker.World.{Session, Handle}
use tinymq_broker.Broker.Distinct.{IsDistinct-drop_everywhere}
use tinymq_broker.Broker.Subscribed.{has-drop_everywhere}
use tinymq_broker.Broker.Reaches.{modify-Reaches}
use tinymq_broker.Broker.Calls.{calling}
use tinymq_broker.Locks.Prog.{sessions_mutex, topics_mutex, changes, changes_under}
use tinymq_broker.Locks.Order.{kept-Guards, sessions-Guards, topics-Guards}
use tinymq_broker.Locks.Safe.{
  IsSafe, IsWithin, keeping, bind-IsSafe, option-IsSafe, changes-IsSafe, changes_under-IsSafe,
  holding-IsSafe,
}
use tinymq_broker.Locks.Methods.{
  dropping_predecessor, entering_session, assign_session, erase_session, drop_session,
  registering_client, registering_session, logging_disconnect, removing_session,
}

assign_session-IsSafe :
    (id : Bytes) (h : Handle) → IsWithin true (h ∷ []) (changes (assign_session id h))
assign_session-IsSafe id h =
    changes-IsSafe _ _
      (modify-Reaches _ _ (λ w. refl) (λ w d. d) (λ w g a. a)
        (λ w n k. record {
          sessions = λ other g e.
              ground (arith, n.0, lookup-assign id other h w.sessions, k.sessions other g);
          subscribers = k.subscribers;
          receivers = k.receivers;
        }))
      (kept-Guards _)

erase_session-IsSafe :
    (hs : List Handle) (id : Bytes) → IsSafe hs (changes_under sessions_mutex (erase_session id))
erase_session-IsSafe hs id =
    changes_under-IsSafe _ _ _
      (modify-Reaches _ _ (λ w. refl) (λ w d. d) (λ w g a. a)
        (λ w n k. record {
          sessions =
              λ other g e. ground (arith, lookup-erase id other w.sessions, k.sessions other g);
          subscribers = k.subscribers;
          receivers = k.receivers;
        }))
      refl (sessions-Guards false _)

drop_session-IsSafe :
    {b : Bool} (hs : List Handle) (h : Handle)
    → IsWithin b hs (changes_under topics_mutex (drop_session h))
drop_session-IsSafe {b} hs h =
    changes_under-IsSafe _ _ _
      (modify-Reaches _ _ (λ w. refl) (λ w d. IsDistinct-drop_everywhere h w.topic_subscribers d)
        (λ w g a. a)
        (λ w n k. record {
          sessions = k.sessions;
          subscribers = λ t g e.
              ground (arith, has-drop_everywhere t h g w.topic_subscribers, k.subscribers t g);
          receivers = k.receivers;
        }))
      tt (topics-Guards b _)

registering_client-IsSafe :
    (hs : List Handle) (s : Session) → IsWithin true hs (registering_client s)
unfolding registering_client
registering_client-IsSafe hs s =
    option-IsSafe _ s.endpoint _ _ (search (keeping)) (λ e. search (keeping, calling))

dropping_predecessor-IsSafe :
    (hs : List Handle) (id : Bytes) → IsWithin true hs (dropping_predecessor id)
unfolding dropping_predecessor
dropping_predecessor-IsSafe hs id =
    bind-IsSafe _ _ _ (search (keeping))
      λ found. option-IsSafe _ found _ _ (search (keeping)) λ old. drop_session-IsSafe _ old

pub entering_session-IsSafe : (h : Handle) → IsWithin true (h ∷ []) (entering_session h)
unfolding entering_session
entering_session-IsSafe h =
    search (keeping, registering_client-IsSafe, dropping_predecessor-IsSafe, assign_session-IsSafe)
      depth 12

pub registering_session-IsSafe : (h : Handle) → IsSafe (h ∷ []) (registering_session h)
unfolding registering_session
registering_session-IsSafe h = holding-IsSafe _ _ (entering_session-IsSafe h)

logging_disconnect-IsSafe : (hs : List Handle) (id : Bytes) → IsSafe hs (logging_disconnect id)
unfolding logging_disconnect
logging_disconnect-IsSafe hs id = search (keeping, calling) depth 12

pub removing_session-IsSafe : (hs : List Handle) (h : Handle) → IsSafe hs (removing_session h)
unfolding removing_session
removing_session-IsSafe hs h =
    search (keeping, logging_disconnect-IsSafe, erase_session-IsSafe, drop_session-IsSafe) depth 12
