-- ===== src/Locks/Markers.antt =====
-- What src/broker.cpp does for the markers that need no answer, cut at its locks.
use tinymq_broker.Base.{
  Bytes, Bool, ◌&&◌, not, ◌==◌, nat_equality, bytes_equality, if◌then◌else◌, is_empty,
}
use tinymq_broker.Db.Tables.{Server}
use tinymq_broker.Db.Topics.{register_topic, set_topic_publish, get_topic_owner}
use tinymq_broker.Db.Sensors.{set_sensor_activable}
use tinymq_broker.Broker.World.{Value}
use tinymq_broker.Broker.Names.{extract_client_id}
use tinymq_broker.Locks.Prog.{Prog, ret, returns, crashes, ◌>>=◌, reads, calls}

-- A database call whose result is only logged.
abbrev pub attempting : (Server → Bool × Server) → Prog (Unit {0})
attempting f = do r ← calls f; ret tt

-- `if (db_manager_) ...`.
abbrev pub with_database : Prog (Unit {0}) → Prog (Unit {0})
with_database m = do db ← reads (λ w. w.has_database); if db then m else ret tt

unfoldable pub taking_sensor_activable : Value → Prog (Unit {0})
taking_sensor_activable v = do
  topic ← returns (v.get_string "topic_name")
  sensor ← returns (v.get_string "sensor_name")
  activable ← returns (v.get_bool "activable")
  client ← returns (v.get_string "client_id")
  with_database (attempting (set_sensor_activable topic sensor client activable))

unfoldable pub taking_publish_update : Value → Prog (Unit {0})
taking_publish_update v = do
  client ← returns (v.get_string "client_id")
  topic ← returns (v.get_string "topic_name")
  state ← returns (v.get_bool "publish")
  with_database (attempting (set_topic_publish topic client state))

unfoldable pub taking_topic_create : Value → Prog (Unit {0})
taking_topic_create v = do
  client ← returns (v.get_string "client_id")
  topic ← returns (v.get_string "topic_name")
  with_database (attempting (register_topic topic client))

-- Nothing is stored: the block only logs.
unfoldable pub taking_sensors_sync : Value → Prog (Unit {0})
taking_sensors_sync v = do
  client ← returns (v.get_string "client_id")
  topic ← returns (v.get_string "topic_name")
  ret tt

-- The client of the message must be the one that the published topic names.
unfoldable pub taking_topic_publish : Bytes → Value → Prog (Unit {0})
taking_topic_publish published v = with_database (do
  client ← returns (v.get_string "client_id")
  topic ← returns (v.get_string "topic_name")
  state ← returns (v.get_bool "publish")
  if not (is_empty client) && client == extract_client_id published
      then attempting (set_topic_publish topic client state)
      else ret tt)

-- The owner by the topic's name, or by the database, which is used without a test for null.
unfoldable pub finding_sensor_owner : Bytes → Prog Bytes
finding_sensor_owner topic =
    if is_empty (extract_client_id topic)
    then (do
      db ← reads (λ w. w.has_database)
      if db then calls (get_topic_owner topic) else crashes)
    else ret (extract_client_id topic)
