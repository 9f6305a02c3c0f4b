-- ===== src/Broker/Sessions.antt =====
-- The session registry: register_session, remove_session, check_client_activity.
use tinymq_broker.Base.{
  Bytes, false, ◌&&◌, not, none, some, List, [], ◌∷◌, map, nat_equality, bytes_equality, nat_beq,
  if◌then◌else◌, select, delete_where, is_empty, lookup, assign, erase, map_values,
}
use tinymq_broker.Db.Clients.{register_client, log_client_disconnect, get_inactive_clients}
use tinymq_broker.Broker.World.{
  Session, Handle, World, M, ◌>>=◌, ◌>>◌, pure, database, gets, modify, find_session, set_object,
}

-- `subscribers.erase(std::remove(..., h), ...)`.
unfoldable pub drop_subscriber : Handle → List Handle → List Handle
drop_subscriber h subscribers = delete_where (λ s. nat_beq s h) subscribers

unfoldable pub drop_everywhere : Handle → List (Bytes × List Handle) → List (Bytes × List Handle)
drop_everywhere h topics = map_values (drop_subscriber h) topics

-- An exception of the endpoint is caught, and the client is then not recorded.
unfoldable pub register_in_database : Session → M (Unit {0})
register_in_database s = elim s.endpoint [
  | none ↦ pure tt
  | some e ↦ do r ← database (register_client s.client_id e.0 e.1); pure tt
]

-- Takes the place of a session that holds the same client id: the old one loses its subscriptions
-- and its entry in the map.
unfoldable pub enter_session : Bytes → Handle → World → World
enter_session client_id h w = record w {
  topic_subscribers = elim (lookup client_id w.sessions) [
    | none ↦ w.topic_subscribers
    | some old ↦ drop_everywhere old w.topic_subscribers
  ];
  sessions = assign client_id h w.sessions;
}

unfoldable pub register_session : Handle → M (Unit {0})
register_session h = do
  s ← gets (λ w. w.objects h)
  db ← gets (λ w. w.has_database)
  (if db && s.is_authenticated then register_in_database s else pure tt)
  modify (enter_session s.client_id h)

unfoldable pub forget_session : Bytes → Handle → World → World
forget_session client_id h w = record w {
  sessions = erase client_id w.sessions;
  topic_subscribers = drop_everywhere h w.topic_subscribers;
}

unfoldable pub log_disconnect : Bytes → M (Unit {0})
log_disconnect client_id = do
  db ← gets (λ w. w.has_database)
  if db then (do r ← database (log_client_disconnect client_id); pure tt) else pure tt

unfoldable pub remove_session : Handle → M (Unit {0})
remove_session h = do
  s ← gets (λ w. w.objects h)
  if is_empty s.client_id
      then pure tt
      else do log_disconnect s.client_id; modify (forget_session s.client_id h)

-- `Session::disconnect`: closes the socket if it is open; an exception of `close` is caught.
unfoldable pub disconnect : Handle → World → World
disconnect h w = record w {
  objects = set_object h (record (w.objects h) { is_open = false }) w.objects;
}

unfoldable pub connected_clients : World → List Bytes
connected_clients w =
    map (λ (e : Bytes × Handle). e.0)
      (select (λ (e : Bytes × Handle). (w.objects e.1).is_authenticated) w.sessions)

unfoldable pub disconnect_client : Bytes → M (Unit {0})
disconnect_client client_id = do
  found ← find_session client_id
  elim found [ none ↦ pure tt | some h ↦ do modify (disconnect h); remove_session h ]

unfoldable pub disconnect_all : List Bytes → M (Unit {0})
disconnect_all [] = pure tt
disconnect_all (c ∷ cs) = do disconnect_client c; disconnect_all cs

unfoldable pub check_client_activity : M (Unit {0})
check_client_activity = do
  db ← gets (λ w. w.has_database)
  if not db then pure tt else do
    ids ← gets connected_clients
    if is_empty ids
        then pure tt
        else do inactive ← database (get_inactive_clients ids); disconnect_all inactive
