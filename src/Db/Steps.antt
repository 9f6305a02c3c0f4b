-- ===== src/Db/Steps.antt =====
-- The database as a state machine: any method, with any arguments, at any time.
use tinymq_broker.Base.{select, ℕ, Bytes, Bool, List, [], arith, ◌≡◌}
use tinymq_broker.Db.Tables.{Tables, Server}
use tinymq_broker.Db.Clients.{register_client, log_client_disconnect}
use tinymq_broker.Db.Topics.{register_topic, set_topic_publish}
use tinymq_broker.Db.Subscriptions.{add_subscription, remove_subscription, log_message}
use tinymq_broker.Db.Admins.{
  resign_admin_status, revoke_admin_status, add_topic_admin, request_admin_status,
  respond_to_admin_request,
}
use tinymq_broker.Db.Sensors.{set_sensor_status, set_sensor_activable}
use tinymq_broker.Db.Invariant.{IsUnique}
use tinymq_broker.Db.Preserve.{
  register_client-IsUnique, log_client_disconnect-IsUnique, register_topic-IsUnique,
  set_topic_publish-IsUnique, add_subscription-IsUnique, remove_subscription-IsUnique,
  log_message-IsUnique,
}
use tinymq_broker.Db.PreserveAdmins.{
  resign_admin_status-IsUnique, revoke_admin_status-IsUnique, add_topic_admin-IsUnique,
  request_admin_status-IsUnique, respond_to_admin_request-IsUnique, set_sensor_status-IsUnique,
  set_sensor_activable-IsUnique,
}

-- The schema just created.
abbrev pub empty_tables : Tables
empty_tables = record {
  clients = [];
  connection_events = [];
  topics = [];
  admin_requests = [];
  admin_sensor_config = [];
  message_logs = [];
  subscriptions = [];
  topic_admins = [];
  next_topic = 1;
  next_request = 1;
  next_subscription = 1;
}

-- One writing method of the database manager, or time and the connection changing.
pub data Step (s : Server) : Server → Type 0 where
  outside : (clock : ℕ) (faults : List Bool) → Step s (record s { clock = clock; faults = faults })
  client_registers : (id ip : Bytes) (port : ℕ) → Step s (register_client id ip port s).1
  client_leaves : (id : Bytes) → Step s (log_client_disconnect id s).1
  topic_registers : (topic owner : Bytes) → Step s (register_topic topic owner s).1
  publish_sets : (topic owner : Bytes) (b : Bool) → Step s (set_topic_publish topic owner b s).1
  subscribes : (id : Bytes) (i : ℕ) → Step s (add_subscription id i s).1
  unsubscribes : (id : Bytes) (i : ℕ) → Step s (remove_subscription id i s).1
  logs : (id : Bytes) (i n : ℕ) (text : Bytes) → Step s (log_message id i n text s).1
  resigns : (topic admin : Bytes) → Step s (resign_admin_status topic admin s).1
  revokes : (topic owner admin : Bytes) → Step s (revoke_admin_status topic owner admin s).1
  adds_admin : (topic admin : Bytes) → Step s (add_topic_admin topic admin s).1
  requests : (topic id : Bytes) → Step s (request_admin_status topic id s).1
  responds :
      (topic owner id : Bytes) (b : Bool) → Step s (respond_to_admin_request topic owner id b s).1
  sensor_sets :
      (topic sensor id : Bytes) (b : Bool) → Step s (set_sensor_status topic sensor id b s).1
  sensor_allows :
      (topic sensor id : Bytes) (b : Bool) → Step s (set_sensor_activable topic sensor id b s).1

pub data Reach (s : Server) : Server → Type 0 where
  initially : Reach s s
  later : {t u : Server} → Reach s t → Step t u → Reach s u

pub Reach-trans : {s t u : Server} → Reach s t → Reach t u → Reach s u
Reach-trans r initially = r
Reach-trans r (later q st) = later (Reach-trans r q) st

Step-IsUnique : {s t : Server} → Step s t → IsUnique s.tables → IsUnique t.tables
Step-IsUnique (outside clock faults) u = u
Step-IsUnique {s} (client_registers id ip port) u = register_client-IsUnique id ip port s u
Step-IsUnique {s} (client_leaves id) u = log_client_disconnect-IsUnique id s u
Step-IsUnique {s} (topic_registers topic owner) u = register_topic-IsUnique topic owner s u
Step-IsUnique {s} (publish_sets topic owner b) u = set_topic_publish-IsUnique topic owner b s u
Step-IsUnique {s} (subscribes id i) u = add_subscription-IsUnique id i s u
Step-IsUnique {s} (unsubscribes id i) u = remove_subscription-IsUnique id i s u
Step-IsUnique {s} (logs id i n text) u = log_message-IsUnique id i n text s u
Step-IsUnique {s} (resigns topic admin) u = resign_admin_status-IsUnique topic admin s u
Step-IsUnique {s} (revokes topic owner admin) u = revoke_admin_status-IsUnique topic owner admin s u
Step-IsUnique {s} (adds_admin topic admin) u = add_topic_admin-IsUnique topic admin s u
Step-IsUnique {s} (requests topic id) u = request_admin_status-IsUnique topic id s u
Step-IsUnique {s} (responds topic owner id b) u =
    respond_to_admin_request-IsUnique topic owner id b s u
Step-IsUnique {s} (sensor_sets topic sensor id b) u =
    set_sensor_status-IsUnique topic sensor id b s u
Step-IsUnique {s} (sensor_allows topic sensor id b) u =
    set_sensor_activable-IsUnique topic sensor id b s u

IsUnique-empty : IsUnique empty_tables
unfolding select
IsUnique-empty = record {
  clients = λ id. omega arith;
  topics = record { names = λ name. omega arith; below = tt; ids = λ i. omega arith };
  requests = λ i id. omega arith;
  subscriptions = λ id i. omega arith;
  admins = λ i. omega arith;
}

-- Whatever methods run on a database that began empty, in any order and with any failures: no two
-- clients share an id, no two topics a name or an id, no client has two requests or two
-- subscriptions for one topic, and no topic has two administrators.
pub Reach-IsUnique : {s t : Server} → s.tables ≡ empty_tables → Reach s t → IsUnique t.tables
Reach-IsUnique e initially = rw e IsUnique-empty
Reach-IsUnique e (later r st) = Step-IsUnique st (Reach-IsUnique e r)
