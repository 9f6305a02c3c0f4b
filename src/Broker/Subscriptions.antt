-- ===== src/Broker/Subscriptions.antt =====
-- subscribe and unsubscribe of src/broker.cpp.
use tinymq_broker.Base.{
  ℕ, Bytes, Bool, true, false, ◌&&◌, not, Option, none, some, List, [], ◌∷◌, ◌++◌, nat_equality,
  bytes_equality, nat_beq, if◌then◌else◌, is_empty, lookup, assign, erase,
}
use tinymq_broker.Db.Topics.{register_topic, get_topic_id}
use tinymq_broker.Db.Subscriptions.{add_subscription, remove_subscription}
use tinymq_broker.Broker.World.{Handle, M, ◌>>=◌, ◌>>◌, pure, database, gets, modify}
use tinymq_broker.Broker.Names.{extract_client_id}
use tinymq_broker.Broker.Sessions.{drop_subscriber}

unfoldable pub has_handle : Handle → List Handle → Bool
has_handle h [] = false
has_handle h (x ∷ xs) = let rest = has_handle h xs in if nat_beq x h then true else rest

abbrev pub subscribers_of : Bytes → List (Bytes × List Handle) → List Handle
subscribers_of topic topics = elim (lookup topic topics) [ none ↦ [] | some subs ↦ subs ]

-- `topic_subscribers_[topic]` makes an entry; a session that is listed is not listed again.
unfoldable pub add_subscriber :
    Bytes → Handle → List (Bytes × List Handle) → List (Bytes × List Handle)
add_subscriber topic h topics =
    let subs = subscribers_of topic topics in
    assign topic (if has_handle h subs then subs else subs ++ (h ∷ [])) topics

-- The topic's id, after an attempt to register a topic that has none.
unfoldable pub topic_id_or_register : Bytes → Bytes → M (Option ℕ)
topic_id_or_register topic owner = do
  found ← database (get_topic_id topic)
  elim found [
    | some id ↦ pure (some id)
    | none ↦ do
      registered ← database (register_topic topic owner)
      if registered then database (get_topic_id topic) else pure none
  ]

unfoldable pub subscribe_in_database : Bytes → Bytes → Bytes → M (Unit {0})
subscribe_in_database client_id topic owner = do
  id ← topic_id_or_register topic owner
  elim id [ none ↦ pure tt | some i ↦ do r ← database (add_subscription client_id i); pure tt ]

unfoldable pub subscribe : Handle → Bytes → M (Unit {0})
subscribe h topic = do
  s ← gets (λ w. w.objects h)
  db ← gets (λ w. w.has_database)
  (if not (is_empty (extract_client_id topic)) && db
      then subscribe_in_database s.client_id topic (extract_client_id topic)
      else pure tt)
  modify (λ w. record w { topic_subscribers = add_subscriber topic h w.topic_subscribers })

-- An entry that becomes empty is erased; a missing one is left missing.
unfoldable pub remove_subscriber :
    Bytes → Handle → List (Bytes × List Handle) → List (Bytes × List Handle)
remove_subscriber topic h topics = elim (lookup topic topics) [
  | none ↦ topics
  | some subs ↦
      let left = drop_subscriber h subs in
      if is_empty left then erase topic topics else assign topic left topics
]

-- The id from the cache, or from the database, which is then cached.
unfoldable pub cached_topic_id : Bytes → M (Option ℕ)
cached_topic_id topic = do
  cached ← gets (λ w. lookup topic w.topic_id_cache)
  elim cached [
    | some id ↦ pure (some id)
    | none ↦ do
      found ← database (get_topic_id topic)
      elim found [
        | none ↦ pure none
        | some id ↦ do
          modify (λ w. record w { topic_id_cache = assign topic id w.topic_id_cache })
          pure (some id)
      ]
  ]

unfoldable pub unsubscribe_in_database : Bytes → Bytes → M (Unit {0})
unsubscribe_in_database client_id topic = do
  id ← cached_topic_id topic
  elim id [ none ↦ pure tt | some i ↦ do r ← database (remove_subscription client_id i); pure tt ]

unfoldable pub unsubscribe : Handle → Bytes → M (Unit {0})
unsubscribe h topic = do
  s ← gets (λ w. w.objects h)
  db ← gets (λ w. w.has_database)
  (if db then unsubscribe_in_database s.client_id topic else pure tt)
  modify (λ w. record w { topic_subscribers = remove_subscriber topic h w.topic_subscribers })
