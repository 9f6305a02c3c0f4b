-- ===== src/Db/Listings.antt =====
-- The queries of src/db_manager.cpp that return lists.
use tinymq_broker.Base.{
  ℕ, Bytes, String, Bool, ◌&&◌, not, ◌||◌, Option, none, some, List, [], ◌∷◌, map, ◌==◌,
  nat_equality, bytes_equality, if◌then◌else◌, select, order_by, join, left_join, ltb, codes,
}
use tinymq_broker.Db.Tables.{
  Topic, AdminRequest, Status, pending, approved, rejected, revoked, SensorConfig, TopicAdmin,
  Tables, Server, rollback, transaction, first_row,
}
use tinymq_broker.Db.Admins.{topic_named, is_topic_admin, is_pending}

-- How PostgreSQL writes values as text, and how it compares names: `before a b` is a ≤ b in the
-- collation of the database.
pub record Rendering : Type 0 where
  pub time_text : ℕ → Bytes
  pub epoch_text : ℕ → Bytes
  pub date_text : ℕ → Bytes
  pub id_text : ℕ → Bytes
  pub before : Bytes → Bytes → Bool

abbrev pub bool_text : Bool → Bytes
bool_text b = if b then codes "true" else codes "false"

abbrev pub status_text : Status → Bytes
status_text pending = codes "pending"
status_text approved = codes "approved"
status_text rejected = codes "rejected"
status_text revoked = codes "revoked"

-- The maps that the methods return, a field for each key.
pub record AdminTopic : Type 0 where
  pub name : Bytes
  pub owner_client_id : Bytes
  pub publish : Bytes
  pub granted_at : Bytes

pub record OwnTopic : Type 0 where
  pub name : Bytes
  pub publish_active : Bytes
  pub admin_client_id : Bytes
  pub created_at : Bytes

pub record RequestInfo : Type 0 where
  pub id : Bytes
  pub topic : Bytes
  pub owner_client_id : Bytes
  pub requester_client_id : Bytes
  pub status : Bytes
  pub request_time : Bytes

module _ (r : Rendering) where
  unfoldable pub get_admin_topics : Bytes → Server → List AdminTopic × Server
  get_admin_topics admin = transaction [] λ now db. rollback (
      map
        (λ (p : Topic × TopicAdmin). record {
          name = p.0.name;
          owner_client_id = p.0.owner_client_id;
          publish = bool_text p.0.publish;
          granted_at = r.time_text p.1.granted_at;
        })
        (order_by (λ (p q : Topic × TopicAdmin). r.before p.0.name q.0.name)
          (select (λ (p : Topic × TopicAdmin). p.1.admin_client_id == admin)
            (join (λ (t : Topic) (a : TopicAdmin). t.id == a.topic_id) db.topics db.topic_admins))))

  -- `sensor`, the map of one row.
  abbrev sensor_map : SensorConfig → List (String × Bytes)
  sensor_map c =
      ("name", c.sensor_name)
      ∷ ("active", bool_text c.active)
      ∷ ("activable", bool_text c.activable)
      ∷ ("configured_at", r.time_text c.updated_at)
      ∷ []

  unfoldable pub get_topic_sensors_config :
      Bytes → Bytes → Server → List (List (String × Bytes)) × Server
  unfolding is_topic_admin topic_named
  get_topic_sensors_config topic_name admin = transaction [] λ now db. rollback (
      if is_topic_admin db topic_name admin
      then first_row (select (topic_named topic_name) db.topics) [] (λ topic. map sensor_map (
          order_by (λ (c d : SensorConfig). r.before c.sensor_name d.sensor_name)
            (select (λ (c : SensorConfig). c.topic_id == topic.id) db.admin_sensor_config)))
      else [])

  unfoldable pub get_published_topics : Server → List (Bytes × Bytes) × Server
  get_published_topics = transaction [] λ now db. rollback (
      map (λ (t : Topic). (t.name, t.owner_client_id))
        (order_by (λ (t u : Topic). r.before t.name u.name)
          (select (λ (t : Topic). t.publish) db.topics)))

  abbrev requests_with_topics : Tables → List (AdminRequest × Topic)
  requests_with_topics db =
      join (λ (q : AdminRequest) (t : Topic). q.topic_id == t.id) db.admin_requests db.topics

  abbrev newest_first : List (AdminRequest × Topic) → List (AdminRequest × Topic)
  newest_first =
      order_by λ (p q : AdminRequest × Topic). not (ltb p.0.request_timestamp q.0.request_timestamp)

  abbrev request_info : (ℕ → Bytes) → AdminRequest × Topic → RequestInfo
  request_info time p = record {
    id = r.id_text p.0.id;
    topic = p.1.name;
    owner_client_id = p.1.owner_client_id;
    requester_client_id = p.0.requester_client_id;
    status = status_text p.0.status;
    request_time = time p.0.request_timestamp;
  }

  -- The requests for the topics of an owner.
  unfoldable pub get_admin_requests : Bytes → Bool → Server → List RequestInfo × Server
  unfolding is_pending
  get_admin_requests owner only_pending = transaction [] λ now db. rollback (
      map (request_info r.epoch_text) (
        newest_first (
          select
            (λ (p : AdminRequest × Topic).
              p.1.owner_client_id == owner && (not only_pending || is_pending p.0.status))
            (requests_with_topics db))))

  -- The requests that a client has made; their time is a date text here.
  unfoldable pub get_client_admin_requests : Bytes → Server → List RequestInfo × Server
  get_client_admin_requests requester = transaction [] λ now db. rollback (
      map (request_info r.date_text) (
        newest_first (
          select (λ (p : AdminRequest × Topic). p.0.requester_client_id == requester)
            (requests_with_topics db))))

  unfoldable pub get_my_topics : Bytes → Server → List OwnTopic × Server
  get_my_topics owner = transaction [] λ now db. rollback (
      map
        (λ (p : Topic × Option TopicAdmin). record {
          name = p.0.name;
          publish_active = bool_text p.0.publish;
          admin_client_id = elim p.1 as (λ a. Bytes) [ none ↦ [] | some a ↦ a.admin_client_id ];
          created_at = r.time_text p.0.created_at;
        })
        (order_by (λ (p q : Topic × Option TopicAdmin). not (ltb p.0.created_at q.0.created_at))
          (select (λ (p : Topic × Option TopicAdmin). p.0.owner_client_id == owner)
            (left_join (λ (t : Topic) (a : TopicAdmin). t.id == a.topic_id) db.topics
              db.topic_admins))))
