-- ===== src/Broker/Markers.antt =====
-- What src/broker.cpp does for the markers that need no answer, and the pieces of the others.
use tinymq_broker.Base.{
  ℕ, Bytes, Bool, true, ◌&&◌, not, [], ◌∷◌, ◌==◌, nat_equality, bytes_equality, if◌then◌else◌,
  is_empty,
}
use tinymq_broker.Db.Tables.{Server}
use tinymq_broker.Db.Topics.{register_topic, set_topic_publish, get_topic_owner}
use tinymq_broker.Db.Sensors.{set_sensor_activable}
use tinymq_broker.Broker.World.{
  M, ◌>>=◌, pure, crash, or_throw, database, gets, text, literal, flag, number, Document, Value,
}
use tinymq_broker.Broker.Names.{extract_client_id}

-- A database call whose result is only logged.
abbrev pub attempt : (Server → Bool × Server) → M (Unit {0})
attempt f = do r ← database f; pure tt

-- `if (db_manager_) ...`.
abbrev pub if_database : M (Unit {0}) → M (Unit {0})
if_database m = do db ← gets (λ w. w.has_database); if db then m else pure tt

unfoldable pub on_sensor_activable : Value → M (Unit {0})
on_sensor_activable v = do
  topic ← or_throw (v.get_string "topic_name")
  sensor ← or_throw (v.get_string "sensor_name")
  activable ← or_throw (v.get_bool "activable")
  client ← or_throw (v.get_string "client_id")
  if_database (attempt (set_sensor_activable topic sensor client activable))

unfoldable pub on_publish_update : Value → M (Unit {0})
on_publish_update v = do
  client ← or_throw (v.get_string "client_id")
  topic ← or_throw (v.get_string "topic_name")
  state ← or_throw (v.get_bool "publish")
  if_database (attempt (set_topic_publish topic client state))

unfoldable pub on_topic_create : Value → M (Unit {0})
on_topic_create v = do
  client ← or_throw (v.get_string "client_id")
  topic ← or_throw (v.get_string "topic_name")
  if_database (attempt (register_topic topic client))

-- Nothing is stored: the block only logs.
unfoldable pub on_sensors_sync : Value → M (Unit {0})
on_sensors_sync v = do
  client ← or_throw (v.get_string "client_id")
  topic ← or_throw (v.get_string "topic_name")
  pure tt

-- The client of the message must be the one that the published topic names.
unfoldable pub on_topic_publish : Bytes → Value → M (Unit {0})
on_topic_publish published v = if_database (do
  client ← or_throw (v.get_string "client_id")
  topic ← or_throw (v.get_string "topic_name")
  state ← or_throw (v.get_bool "publish")
  if not (is_empty client) && client == extract_client_id published
      then attempt (set_topic_publish topic client state)
      else pure tt)

abbrev pub confirmation : Bytes → Bytes → Bool → ℕ → Document
confirmation topic sensor active time =
    ("__sensor_status_changed", flag true)
    ∷ ("topic_name", text topic)
    ∷ ("sensor_name", text sensor)
    ∷ ("active", flag active)
    ∷ ("success", flag true)
    ∷ ("timestamp", number time)
    ∷ []

abbrev pub command : Bytes → Bool → Document
command sensor active =
    ("command", literal "set_sensor")
    ∷ ("sensor_name", text sensor)
    ∷ ("active", flag active)
    ∷ ("__is_internal_notification", flag true)
    ∷ []

-- The owner by the topic's name, or by the database, which is used without a test for null.
unfoldable pub sensor_owner : Bytes → M Bytes
sensor_owner topic =
    if is_empty (extract_client_id topic)
    then (do
      db ← gets (λ w. w.has_database)
      if db then database (get_topic_owner topic) else crash)
    else pure (extract_client_id topic)
