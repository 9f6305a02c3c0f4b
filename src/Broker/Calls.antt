-- ===== src/Broker/Calls.antt =====
-- The methods of src/db_manager.cpp that src/broker.cpp calls, as sequences of steps of the
-- database.
use tinymq_broker.Base.{ℕ, Bytes, Bool, List, [], ◌∷◌}
use tinymq_broker.Db.Clients.{
  client_exists, register_client, log_client_disconnect, get_inactive_clients,
}
use tinymq_broker.Db.Topics.{
  topic_exists, get_topic_id, get_topic_owner, register_topic, set_topic_publish,
}
use tinymq_broker.Db.Subscriptions.{
  is_client_subscribed, add_subscription, remove_subscription, log_message,
}
use tinymq_broker.Db.Admins.{
  topic_has_admin, check_admin_request_status, resign_admin_status, revoke_admin_status,
  add_topic_admin, request_admin_status, respond_to_admin_request,
}
use tinymq_broker.Db.Sensors.{set_sensor_status, set_sensor_activable}
use tinymq_broker.Db.Listings.{
  Rendering, get_admin_topics, get_topic_sensors_config, get_published_topics,
  get_client_admin_requests, get_my_topics, get_admin_requests,
}
use tinymq_broker.Db.Steps.{
  initially, later, client_registers, client_leaves, topic_registers, publish_sets, subscribes,
  unsubscribes, logs, resigns, revokes, adds_admin, requests, responds, sensor_sets, sensor_allows,
}
use tinymq_broker.Broker.Reaches.{Calls, reads-Calls}

pub register_client-Calls : (id ip : Bytes) (port : ℕ) → Calls (register_client id ip port)
register_client-Calls id ip port = record {
  calls = λ s. later initially (client_registers id ip port);
}

pub log_client_disconnect-Calls : (id : Bytes) → Calls (log_client_disconnect id)
log_client_disconnect-Calls id = record { calls = λ s. later initially (client_leaves id) }

pub register_topic-Calls : (topic owner : Bytes) → Calls (register_topic topic owner)
register_topic-Calls topic owner = record {
  calls = λ s. later initially (topic_registers topic owner);
}

pub set_topic_publish-Calls :
    (topic owner : Bytes) (b : Bool) → Calls (set_topic_publish topic owner b)
set_topic_publish-Calls topic owner b = record {
  calls = λ s. later initially (publish_sets topic owner b);
}

pub add_subscription-Calls : (id : Bytes) (i : ℕ) → Calls (add_subscription id i)
add_subscription-Calls id i = record { calls = λ s. later initially (subscribes id i) }

pub remove_subscription-Calls : (id : Bytes) (i : ℕ) → Calls (remove_subscription id i)
remove_subscription-Calls id i = record { calls = λ s. later initially (unsubscribes id i) }

pub log_message-Calls : (id : Bytes) (i n : ℕ) (text : Bytes) → Calls (log_message id i n text)
log_message-Calls id i n text = record { calls = λ s. later initially (logs id i n text) }

pub resign_admin_status-Calls : (topic admin : Bytes) → Calls (resign_admin_status topic admin)
resign_admin_status-Calls topic admin = record {
  calls = λ s. later initially (resigns topic admin);
}

pub revoke_admin_status-Calls :
    (topic owner admin : Bytes) → Calls (revoke_admin_status topic owner admin)
revoke_admin_status-Calls topic owner admin = record {
  calls = λ s. later initially (revokes topic owner admin);
}

pub add_topic_admin-Calls : (topic admin : Bytes) → Calls (add_topic_admin topic admin)
add_topic_admin-Calls topic admin = record { calls = λ s. later initially (adds_admin topic admin) }

pub request_admin_status-Calls : (topic id : Bytes) → Calls (request_admin_status topic id)
request_admin_status-Calls topic id = record { calls = λ s. later initially (requests topic id) }

pub respond_to_admin_request-Calls :
    (topic owner id : Bytes) (b : Bool) → Calls (respond_to_admin_request topic owner id b)
respond_to_admin_request-Calls topic owner id b = record {
  calls = λ s. later initially (responds topic owner id b);
}

pub set_sensor_status-Calls :
    (topic sensor id : Bytes) (b : Bool) → Calls (set_sensor_status topic sensor id b)
set_sensor_status-Calls topic sensor id b = record {
  calls = λ s. later initially (sensor_sets topic sensor id b);
}

pub set_sensor_activable-Calls :
    (topic sensor id : Bytes) (b : Bool) → Calls (set_sensor_activable topic sensor id b)
set_sensor_activable-Calls topic sensor id b = record {
  calls = λ s. later initially (sensor_allows topic sensor id b);
}

pub client_exists-Calls : (id : Bytes) → Calls (client_exists id)
unfolding client_exists
client_exists-Calls id = reads-Calls _ _

pub topic_exists-Calls : (name : Bytes) → Calls (topic_exists name)
unfolding topic_exists
topic_exists-Calls name = reads-Calls _ _

pub get_topic_id-Calls : (name : Bytes) → Calls (get_topic_id name)
unfolding get_topic_id
get_topic_id-Calls name = reads-Calls _ _

pub get_topic_owner-Calls : (name : Bytes) → Calls (get_topic_owner name)
unfolding get_topic_owner
get_topic_owner-Calls name = reads-Calls _ _

pub is_client_subscribed-Calls : (id name : Bytes) → Calls (is_client_subscribed id name)
unfolding is_client_subscribed
is_client_subscribed-Calls id name = reads-Calls _ _

pub topic_has_admin-Calls : (name : Bytes) → Calls (topic_has_admin name)
unfolding topic_has_admin
topic_has_admin-Calls name = reads-Calls _ _

pub check_admin_request_status-Calls :
    (name id : Bytes) → Calls (check_admin_request_status name id)
unfolding check_admin_request_status
check_admin_request_status-Calls name id = reads-Calls _ _

pub get_inactive_clients-Calls : (ids : List Bytes) → Calls (get_inactive_clients ids)
unfolding get_inactive_clients
get_inactive_clients-Calls [] = record { calls = λ s. initially }
get_inactive_clients-Calls (c ∷ cs) = reads-Calls _ _

module _ (r : Rendering) where
  pub get_admin_topics-Calls : (id : Bytes) → Calls (get_admin_topics r id)
  unfolding get_admin_topics
  get_admin_topics-Calls id = reads-Calls _ _

  pub get_topic_sensors_config-Calls :
      (name id : Bytes) → Calls (get_topic_sensors_config r name id)
  unfolding get_topic_sensors_config
  get_topic_sensors_config-Calls name id = reads-Calls _ _

  pub get_published_topics-Calls : Calls (get_published_topics r)
  unfolding get_published_topics
  get_published_topics-Calls = reads-Calls _ _

  pub get_client_admin_requests-Calls : (id : Bytes) → Calls (get_client_admin_requests r id)
  unfolding get_client_admin_requests
  get_client_admin_requests-Calls id = reads-Calls _ _

  pub get_my_topics-Calls : (id : Bytes) → Calls (get_my_topics r id)
  unfolding get_my_topics
  get_my_topics-Calls id = reads-Calls _ _

  pub get_admin_requests-Calls : (owner : Bytes) (b : Bool) → Calls (get_admin_requests r owner b)
  unfolding get_admin_requests
  get_admin_requests-Calls owner b = reads-Calls _ _

pub ruleset calling = (
  register_client-Calls, log_client_disconnect-Calls, register_topic-Calls, set_topic_publish-Calls,
  add_subscription-Calls, remove_subscription-Calls, log_message-Calls, resign_admin_status-Calls,
  revoke_admin_status-Calls, add_topic_admin-Calls, request_admin_status-Calls,
  respond_to_admin_request-Calls, set_sensor_status-Calls, set_sensor_activable-Calls,
  client_exists-Calls, topic_exists-Calls, get_topic_id-Calls, get_topic_owner-Calls,
  is_client_subscribed-Calls, topic_has_admin-Calls, check_admin_request_status-Calls,
  get_inactive_clients-Calls, get_admin_topics-Calls, get_topic_sensors_config-Calls,
  get_published_topics-Calls, get_client_admin_requests-Calls, get_my_topics-Calls,
  get_admin_requests-Calls,
)
