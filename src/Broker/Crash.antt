-- ===== src/Broker/Crash.antt =====
-- The sensor command of `publish` in src/broker.cpp, where there is no database.
use tinymq_broker.Base.{◌≡◌, Bytes, Bool, true, false, some, is_empty, arith}
use tinymq_broker.Broker.World.{World, undefined, Json, Value, ◌>>=◌, ◌>>◌, gets}
use tinymq_broker.Broker.Names.{extract_client_id}
use tinymq_broker.Broker.Markers.{sensor_owner}
use tinymq_broker.Broker.Control.{set_sensor}

-- Without a database, a sensor command whose members can be read, for a topic that names no owner,
-- has undefined behaviour: the owner is asked of a database that is not there.
pub set_sensor_undefined :
    (json : Json) (published message : Bytes) (v : Value) (topic sensor client : Bytes)
    (active : Bool) (w : World)
    → json.parse message ≡ some v
    → v.get_string "topic_name" ≡ some topic
    → v.get_string "sensor_name" ≡ some sensor
    → v.get_bool "active" ≡ some active
    → v.get_string "client_id" ≡ some client
    → is_empty (extract_client_id topic) ≡ true
    → w.has_database ≡ false
    → set_sensor json published message w ≡ (undefined, w)
unfolding set_sensor sensor_owner ◌>>=◌ ◌>>◌ gets
set_sensor_undefined json published message v topic sensor client active w p t s a c e d =
    ground arith
