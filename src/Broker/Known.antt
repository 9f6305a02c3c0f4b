-- ===== src/Broker/Known.antt =====
-- Sessions that have identified themselves, and the places of src/broker.cpp that hold such only.
use tinymq_broker.Base.{
  ℕ, ◌≡◌, inl, inr, Bytes, Bool, true, some, List, [], ◌∷◌, ◌++◌, nat_equality, bytes_equality,
  nat_beq_iff, All, All-append, All-weaken, Option-cases, lookup, lookup-assign, lookup-erase,
  arith,
}
use tinymq_broker.Packet.{Packet}
use tinymq_broker.Broker.World.{Session, Handle, World}
use tinymq_broker.Broker.Sessions.{enter_session, forget_session}
use tinymq_broker.Broker.Subscriptions.{
  has_handle, subscribers_of, add_subscriber, remove_subscriber,
}
use tinymq_broker.Broker.Subscribed.{is_subscribed, has-add, has-remove, has-drop_everywhere}

abbrev pub authenticated : World → Handle → Bool
authenticated w h = (w.objects h).is_authenticated

-- Only authenticated sessions stand in the map of sessions and in the lists of subscribers, and only
-- they have been sent a packet.
pub record IsKnown (w : World) : Type 0 where
  pub sessions :
      (id : Bytes) (h : Handle) → lookup id w.sessions ≡ some h → authenticated w h ≡ true
  pub subscribers : (t : Bytes) (h : Handle) → is_subscribed w t h ≡ true → authenticated w h ≡ true
  pub receivers : All (λ (e : Handle × Packet). authenticated w e.0 ≡ true) w.wire

-- Sessions that the caller knows to be authenticated.
abbrev pub Knows : List Handle → World → Type 0
Knows hs w = All (λ h. authenticated w h ≡ true) hs

-- Authenticated sessions stay so.
abbrev pub Stays : World → World → Type 0
Stays w v = (h : Handle) → authenticated w h ≡ true → authenticated v h ≡ true

pub Knows-Stays : (hs : List Handle) (w v : World) → Stays w v → Knows hs w → Knows hs v
Knows-Stays hs w v s k = All-weaken _ _ hs s k

-- What holds for each session that is listed.
listed-All :
    (P : Handle → Type 0) (hs : List Handle)
    → ((h : Handle) → has_handle h hs ≡ true → P h)
    → All P hs
unfolding has_handle
listed-All P [] f = tt
listed-All P (g ∷ gs) f =
    (f g (ground (arith, nat_beq_iff g g)), listed-All P gs λ h e. f h (ground arith))

pub Knows-subscribers :
    (t : Bytes) (w : World) → IsKnown w → Knows (subscribers_of t w.topic_subscribers) w
Knows-subscribers t w k = listed-All _ _ (k.subscribers t)

-- Changes that leave the map, the subscriptions and the wire alone.
pub IsKnown-objects :
    (w : World) (objects : Handle → Session)
    → Stays w (record w { objects = objects })
    → IsKnown w
    → IsKnown (record w { objects = objects })
IsKnown-objects w objects s k = record {
  sessions = λ id h e. s h (k.sessions id h e);
  subscribers = λ t h e. s h (k.subscribers t h e);
  receivers = All-weaken _ _ w.wire (λ e a. s e.0 a) k.receivers;
}

pub IsKnown-cache :
    (w : World) (cache : List (Bytes × ℕ))
    → IsKnown w
    → IsKnown (record w { topic_id_cache = cache })
IsKnown-cache w cache k = record {
  sessions = k.sessions;
  subscribers = k.subscribers;
  receivers = k.receivers;
}

pub IsKnown-send :
    (h : Handle) (p : Packet) (w : World)
    → authenticated w h ≡ true
    → IsKnown w
    → IsKnown (record w { wire = w.wire ++ ((h, p) ∷ []) })
IsKnown-send h p w a k = record {
  sessions = k.sessions;
  subscribers = k.subscribers;
  receivers = All-append _ w.wire ((h, p) ∷ []) k.receivers (a, tt);
}

pub IsKnown-enter_session :
    (id : Bytes) (h : Handle) (w : World)
    → authenticated w h ≡ true
    → IsKnown w
    → IsKnown (enter_session id h w)
unfolding enter_session
IsKnown-enter_session id h w a k = record {
  sessions = λ other g e. ground (arith, lookup-assign id other h w.sessions, k.sessions other g);
  subscribers = λ t g e. elim (Option-cases (lookup id w.sessions)) [
    | inl none_old ↦ k.subscribers t g (ground arith)
    | inr (old, found) ↦
        ground (arith, has-drop_everywhere t old g w.topic_subscribers, k.subscribers t g)
  ];
  receivers = k.receivers;
}

pub IsKnown-forget_session :
    (id : Bytes) (h : Handle) (w : World) → IsKnown w → IsKnown (forget_session id h w)
unfolding forget_session
IsKnown-forget_session id h w k = record {
  sessions = λ other g e. ground (arith, lookup-erase id other w.sessions, k.sessions other g);
  subscribers =
      λ t g e. ground (arith, has-drop_everywhere t h g w.topic_subscribers, k.subscribers t g);
  receivers = k.receivers;
}

pub IsKnown-add_subscriber :
    (topic : Bytes) (h : Handle) (w : World)
    → authenticated w h ≡ true
    → IsKnown w
    → IsKnown (record w { topic_subscribers = add_subscriber topic h w.topic_subscribers })
IsKnown-add_subscriber topic h w a k = record {
  sessions = k.sessions;
  subscribers = λ t g e.
      ground (arith, has-add topic t h g w.topic_subscribers, nat_beq_iff h g, k.subscribers t g);
  receivers = k.receivers;
}

pub IsKnown-remove_subscriber :
    (topic : Bytes) (h : Handle) (w : World)
    → IsKnown w
    → IsKnown (record w { topic_subscribers = remove_subscriber topic h w.topic_subscribers })
IsKnown-remove_subscriber topic h w k = record {
  sessions = k.sessions;
  subscribers =
      λ t g e. ground (arith, has-remove topic t h g w.topic_subscribers, k.subscribers t g);
  receivers = k.receivers;
}
