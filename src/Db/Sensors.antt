-- ===== src/Db/Sensors.antt =====
-- The sensor settings of a topic.
use tinymq_broker.Base.{
  ℕ, Bytes, Bool, true, false, ◌&&◌, [], ◌∷◌, ◌++◌, ◌==◌, nat_equality, bytes_equality,
  if◌then◌else◌, has_row, select, update_where,
}
use tinymq_broker.Db.Tables.{
  SensorConfig, Tables, Server, Outcome, commit, rollback, raise, transaction, first_row,
}
use tinymq_broker.Db.Clients.{client_row}
use tinymq_broker.Db.Topics.{owned_by}
use tinymq_broker.Db.Admins.{topic_named, is_topic_admin}

unfoldable pub sensor_is : ℕ → Bytes → SensorConfig → Bool
sensor_is topic_id name r = r.topic_id == topic_id && r.sensor_name == name

-- `INSERT ... ON CONFLICT (topic_id, sensor_name) DO UPDATE`; `set_by` is a foreign key.
unfoldable pub upsert_sensor :
    Tables → Bytes → SensorConfig → (SensorConfig → SensorConfig) → Outcome Bool
unfolding sensor_is client_row
upsert_sensor db client_id row change =
    let same = sensor_is row.topic_id row.sensor_name in
    if client_row db client_id
    then commit true (record db {
      admin_sensor_config =
          if has_row same db.admin_sensor_config
          then update_where same change db.admin_sensor_config
          else db.admin_sensor_config ++ (row ∷ []);
    })
    else raise

unfoldable pub set_sensor_status_body : Bytes → Bytes → Bytes → Bool → ℕ → Tables → Outcome Bool
unfolding is_topic_admin topic_named upsert_sensor
set_sensor_status_body topic_name sensor client_id active now db =
    if is_topic_admin db topic_name client_id
    then first_row (select (topic_named topic_name) db.topics) (rollback false) (λ topic.
      upsert_sensor db client_id
        (record {
          topic_id = topic.id;
          sensor_name = sensor;
          active = active;
          set_by = client_id;
          updated_at = now;
          activable = false;
        })
        (λ r. record r { active = active; set_by = client_id; updated_at = now }))
    else rollback false

unfoldable pub set_sensor_status : Bytes → Bytes → Bytes → Bool → Server → Bool × Server
unfolding set_sensor_status_body
set_sensor_status topic_name sensor client_id active =
    transaction false (set_sensor_status_body topic_name sensor client_id active)

unfoldable pub set_sensor_activable_body : Bytes → Bytes → Bytes → Bool → ℕ → Tables → Outcome Bool
unfolding owned_by upsert_sensor
set_sensor_activable_body topic_name sensor client_id activable now db =
    first_row (select (owned_by topic_name client_id) db.topics) (rollback false) λ topic.
      upsert_sensor db client_id
        (record {
          topic_id = topic.id;
          sensor_name = sensor;
          active = true;
          set_by = client_id;
          updated_at = now;
          activable = activable;
        })
        (λ r. record r { activable = activable; set_by = client_id; updated_at = now })

unfoldable pub set_sensor_activable : Bytes → Bytes → Bytes → Bool → Server → Bool × Server
unfolding set_sensor_activable_body
set_sensor_activable topic_name sensor client_id activable =
    transaction false (set_sensor_activable_body topic_name sensor client_id activable)
