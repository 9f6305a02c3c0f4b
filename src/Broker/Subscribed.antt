-- ===== src/Broker/Subscribed.antt =====
-- Who is subscribed to what: the abstract view of topic_subscribers_, and what each operation does to it.
use tinymq_broker.Base.{
  ◌≡◌, inl, inr, Bytes, Bool, true, false, ◌&&◌, ◌||◌, Option, none, some, List, [], ◌∷◌, ◌++◌,
  ◌==◌, nat_equality, bytes_equality, nat_beq, bytes_beq_iff, if◌then◌else◌, delete_where, is_empty,
  Option-cases, arith,
}
use tinymq_broker.Base.{lookup, lookup-assign, lookup-erase, lookup-map_values}
use tinymq_broker.Broker.World.{Handle, World, ◌>>=◌, ◌>>◌, gets, database, modify}
use tinymq_broker.Broker.Sessions.{
  drop_subscriber, drop_everywhere, register_session, register_in_database, enter_session,
  remove_session, log_disconnect, forget_session,
}
use tinymq_broker.Broker.Subscriptions.{
  has_handle, subscribers_of, add_subscriber, remove_subscriber, subscribe, subscribe_in_database,
  topic_id_or_register, unsubscribe, unsubscribe_in_database, cached_topic_id,
}

-- Whether a session is subscribed to a topic: all that publishing asks of the map, but the order.
abbrev pub is_subscribed : World → Bytes → Handle → Bool
is_subscribed w topic h = has_handle h (subscribers_of topic w.topic_subscribers)

has_handle-append :
    (h g : Handle) (xs : List Handle)
    → has_handle h (xs ++ g ∷ []) ≡ (has_handle h xs || nat_beq g h)
unfolding has_handle
has_handle-append h g [] = ground arith
has_handle-append h g (x ∷ xs) = ground (arith, has_handle-append h g xs)

has_handle-drop :
    (h g : Handle) (xs : List Handle)
    → has_handle h (drop_subscriber g xs) ≡ (if nat_beq g h then false else has_handle h xs)
unfolding has_handle drop_subscriber delete_where
has_handle-drop h g [] = ground arith
has_handle-drop h g (x ∷ xs) = ground (arith, has_handle-drop h g xs)

abbrev pub has : List (Bytes × List Handle) → Bytes → Handle → Bool
has topics topic h = has_handle h (subscribers_of topic topics)

pub has-add :
    (t u : Bytes) (h g : Handle) (topics : List (Bytes × List Handle))
    → has (add_subscriber t h topics) u g ≡ (if t == u && nat_beq h g then true else has topics u g)
unfolding add_subscriber
has-add t u h g topics = ground (
  arith,
  bytes_beq_iff t u,
  lookup-assign t u
      (if has_handle h (subscribers_of t topics)
        then subscribers_of t topics
        else subscribers_of t topics ++ (h ∷ []))
      topics,
  has_handle-append g h (subscribers_of t topics),
)

is_empty-drop :
    (h g : Handle) (xs : List Handle)
    → is_empty (drop_subscriber h xs) ≡ true
    → has_handle g (drop_subscriber h xs) ≡ false
unfolding has_handle
is_empty-drop h g xs e = ground arith

pub has-remove :
    (t u : Bytes) (h g : Handle) (topics : List (Bytes × List Handle))
    → has (remove_subscriber t h topics) u g
      ≡ (if t == u && nat_beq h g then false else has topics u g)
unfolding remove_subscriber has_handle
has-remove t u h g topics = ground (
  arith,
  bytes_beq_iff t u,
  lookup-assign t u (drop_subscriber h (subscribers_of t topics)) topics,
  lookup-erase t u topics,
  has_handle-drop g h (subscribers_of t topics),
  is_empty-drop h g (subscribers_of t topics),
)

pub has-drop_everywhere :
    (u : Bytes) (h g : Handle) (topics : List (Bytes × List Handle))
    → has (drop_everywhere h topics) u g ≡ (if nat_beq h g then false else has topics u g)
unfolding drop_everywhere has_handle
has-drop_everywhere u h g topics = ground (
  arith,
  lookup-map_values (drop_subscriber h) u topics,
  has_handle-drop g h (subscribers_of u topics),
)

topics-subscribe :
    (h : Handle) (topic : Bytes) (w : World)
    → (subscribe h topic w).1.topic_subscribers ≡ add_subscriber topic h w.topic_subscribers
unfolding subscribe subscribe_in_database topic_id_or_register ◌>>=◌ ◌>>◌ gets database modify
topics-subscribe h topic w = ground arith

topics-unsubscribe :
    (h : Handle) (topic : Bytes) (w : World)
    → (unsubscribe h topic w).1.topic_subscribers ≡ remove_subscriber topic h w.topic_subscribers
unfolding unsubscribe unsubscribe_in_database cached_topic_id ◌>>=◌ ◌>>◌ gets database modify
topics-unsubscribe h topic w = ground arith

-- Subscribing adds exactly this session to exactly this topic, whatever the database answers.
pub is_subscribed-subscribe :
    (h g : Handle) (t u : Bytes) (w : World)
    → is_subscribed (subscribe h t w).1 u g
      ≡ (if t == u && nat_beq h g then true else is_subscribed w u g)
is_subscribed-subscribe h g t u w =
    rw (topics-subscribe h t w) (has-add t u h g w.topic_subscribers)

-- Unsubscribing takes exactly this session from exactly this topic.
pub is_subscribed-unsubscribe :
    (h g : Handle) (t u : Bytes) (w : World)
    → is_subscribed (unsubscribe h t w).1 u g
      ≡ (if t == u && nat_beq h g then false else is_subscribed w u g)
is_subscribed-unsubscribe h g t u w =
    rw (topics-unsubscribe h t w) (has-remove t u h g w.topic_subscribers)

-- Removing a session that has identified itself takes it from every topic, and no other session
-- from any.
pub is_subscribed-remove_session :
    (h g : Handle) (u : Bytes) (w : World)
    → is_empty (w.objects h).client_id ≡ false
    → is_subscribed (remove_session h w).1 u g
      ≡ (if nat_beq h g then false else is_subscribed w u g)
unfolding remove_session log_disconnect forget_session ◌>>=◌ ◌>>◌ gets database modify
is_subscribed-remove_session h g u w e =
    ground (arith, has-drop_everywhere u h g w.topic_subscribers)

-- The session that held the client id before, if any.
abbrev pub predecessor : World → Handle → Option Handle
predecessor w h = lookup (w.objects h).client_id w.sessions

-- Registering a session takes the predecessor from every topic, and no other session from any.
pub is_subscribed-register_session :
    (h g : Handle) (u : Bytes) (w : World)
    → is_subscribed (register_session h w).1 u g ≡ (elim (predecessor w h) [
      | none ↦ is_subscribed w u g
      | some old ↦ if nat_beq old g then false else is_subscribed w u g
    ])
unfolding register_session register_in_database enter_session ◌>>=◌ ◌>>◌ gets database modify
is_subscribed-register_session h g u w = elim (Option-cases (predecessor w h)) [
  | inl e ↦ ground arith
  | inr (old, e) ↦ ground (arith, has-drop_everywhere u old g w.topic_subscribers)
]
