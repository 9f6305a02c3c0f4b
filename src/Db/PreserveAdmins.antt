-- ===== src/Db/PreserveAdmins.antt =====
-- The uniqueness of the tables under the methods on administrators and sensors.
use tinymq_broker.Base.{
  ℕ, ◌≡◌, refl, Bytes, Bool, true, false, ◌&&◌, not, [], nat_equality, bytes_equality, has_row,
  select, update_where, has_row-false, select-delete_self,
}
use tinymq_broker.Db.Tables.{AdminRequest, Status, SensorConfig, Tables, Server, commit}
use tinymq_broker.Db.Clients.{client_row}
use tinymq_broker.Db.Topics.{owned_by}
use tinymq_broker.Db.Subscriptions.{topic_with_id}
use tinymq_broker.Db.Admins.{
  open_request, is_topic_admin, admin_of, admin_is, request_of, topic_named, insert_admin, withdraw,
  resign_admin_status, resign_admin_status_body, revoke_admin_status, revoke_admin_status_body,
  add_topic_admin, add_topic_admin_body, request_admin_status, request_admin_status_body,
  respond_to_admin_request, respond_to_admin_request_body, answer,
}
use tinymq_broker.Db.Sensors.{
  upsert_sensor, set_sensor_status, set_sensor_status_body, set_sensor_activable,
  set_sensor_activable_body,
}
use tinymq_broker.Db.Committed.{
  Committed, Committed-commit, Committed-rollback, Committed-raise, Committed-if,
  Committed-first_row, transaction-Committed,
}
use tinymq_broker.Db.Invariant.{
  IsUnique, UniqueRequests, UniqueRequests-insert, UniqueRequests-update, OneAdmin-delete,
  OneAdmin-insert,
}
use tinymq_broker.Db.Preserve.{IsUnique-other}

-- The grant goes and the approved request is marked.
withdraw-IsUnique :
    (i : ℕ) (client : Bytes) (now : ℕ) (db : Tables)
    → IsUnique db
    → IsUnique (withdraw i client now db)
unfolding withdraw answer
withdraw-IsUnique i client now db u = record {
  clients = u.clients;
  topics = u.topics;
  requests = UniqueRequests-update _ _ db.admin_requests (λ x. refl) (λ x. refl) u.requests;
  subscriptions = u.subscriptions;
  admins = OneAdmin-delete _ db.topic_admins u.admins;
}

pub resign_admin_status-IsUnique :
    (topic admin : Bytes) (s : Server)
    → IsUnique s.tables
    → IsUnique (resign_admin_status topic admin s).1.tables
unfolding resign_admin_status resign_admin_status_body
resign_admin_status-IsUnique topic admin s u =
    transaction-Committed IsUnique false (resign_admin_status_body topic admin) s u (
      Committed-first_row (select (topic_named topic) s.tables.topics) _ _
        (λ _. Committed-rollback false)
        λ t ts _.
          Committed-if (has_row (admin_is t.id admin) s.tables.topic_admins) _ _
            (λ _. Committed-commit true _ (withdraw-IsUnique t.id admin s.clock s.tables u))
            (λ _. Committed-rollback false))

pub revoke_admin_status-IsUnique :
    (topic owner admin : Bytes) (s : Server)
    → IsUnique s.tables
    → IsUnique (revoke_admin_status topic owner admin s).1.tables
unfolding revoke_admin_status revoke_admin_status_body
revoke_admin_status-IsUnique topic owner admin s u =
    transaction-Committed IsUnique false (revoke_admin_status_body topic owner admin) s u (
      Committed-first_row (select (owned_by topic owner) s.tables.topics) _ _
        (λ _. Committed-rollback false)
        λ t ts _.
          Committed-if (has_row (admin_is t.id admin) s.tables.topic_admins) _ _
            (λ _. Committed-commit true _ (withdraw-IsUnique t.id admin s.clock s.tables u))
            (λ _. Committed-rollback false))

-- A grant for a topic that has none left.
insert_admin-IsUnique :
    (i : ℕ) (client : Bytes) (now : ℕ) (db : Tables)
    → select (admin_of i) db.topic_admins ≡ []
    → IsUnique db
    → Committed IsUnique (insert_admin i client now db (commit true))
unfolding insert_admin
insert_admin-IsUnique i client now db new u =
    Committed-if
      (client_row db client
        && topic_with_id db i
        && not (has_row (admin_is i client) db.topic_admins))
      _ _
      (λ _. Committed-commit true _ (record {
        clients = u.clients;
        topics = u.topics;
        requests = u.requests;
        subscriptions = u.subscriptions;
        admins = OneAdmin-insert db.topic_admins _ new u.admins;
      }))
      (λ _. Committed-raise)

pub add_topic_admin-IsUnique :
    (topic admin : Bytes) (s : Server)
    → IsUnique s.tables
    → IsUnique (add_topic_admin topic admin s).1.tables
unfolding add_topic_admin add_topic_admin_body
add_topic_admin-IsUnique topic admin s u =
    transaction-Committed IsUnique false (add_topic_admin_body topic admin) s u (
      Committed-first_row (select (topic_named topic) s.tables.topics) _ _
        (λ _. Committed-rollback false)
        λ t ts _.
          Committed-if (has_row (admin_of t.id) s.tables.topic_admins) _ _
            (λ _. Committed-rollback false)
            (λ e.
              insert_admin-IsUnique t.id admin s.clock s.tables
                (has_row-false (admin_of t.id) s.tables.topic_admins e) u))

pub request_admin_status-IsUnique :
    (topic requester : Bytes) (s : Server)
    → IsUnique s.tables
    → IsUnique (request_admin_status topic requester s).1.tables
unfolding request_admin_status request_admin_status_body
request_admin_status-IsUnique topic requester s u =
    transaction-Committed IsUnique false (request_admin_status_body topic requester) s u (
      Committed-first_row (select (topic_named topic) s.tables.topics) _ _
        (λ _. Committed-rollback false)
        λ t ts _.
          Committed-first_row (select (request_of t.id requester) s.tables.admin_requests) _ _
            (λ new.
              Committed-if (client_row s.tables requester) _ _
                (λ _. Committed-commit true _ (record {
                  clients = u.clients;
                  topics = u.topics;
                  requests = UniqueRequests-insert s.tables.admin_requests _ new u.requests;
                  subscriptions = u.subscriptions;
                  admins = u.admins;
                }))
                (λ _. Committed-raise))
            (λ r rs _. Committed-commit true _ (record {
              clients = u.clients;
              topics = u.topics;
              requests =
                  UniqueRequests-update _ _ s.tables.admin_requests (λ x. refl) (λ x. refl)
                    u.requests;
              subscriptions = u.subscriptions;
              admins = u.admins;
            })))

pub respond_to_admin_request-IsUnique :
    (topic owner requester : Bytes) (approve : Bool) (s : Server)
    → IsUnique s.tables
    → IsUnique (respond_to_admin_request topic owner requester approve s).1.tables
unfolding respond_to_admin_request respond_to_admin_request_body answer
respond_to_admin_request-IsUnique topic owner requester approve s u =
    transaction-Committed IsUnique false
      (respond_to_admin_request_body topic owner requester approve) s u
      (Committed-first_row (select (owned_by topic owner) s.tables.topics) _ _
        (λ _. Committed-rollback false)
        λ t ts _.
          Committed-if (has_row (open_request t.id requester) s.tables.admin_requests) _ _
            (λ _.
              Committed-if approve _ _
                (λ _.
                  insert_admin-IsUnique t.id requester s.clock _
                    (select-delete_self (admin_of t.id) s.tables.topic_admins)
                    (record {
                      clients = u.clients;
                      topics = u.topics;
                      requests = answered _ _;
                      subscriptions = u.subscriptions;
                      admins = OneAdmin-delete (admin_of t.id) s.tables.topic_admins u.admins;
                    }))
                (λ _. Committed-commit true _ (record {
                  clients = u.clients;
                  topics = u.topics;
                  requests = answered _ _;
                  subscriptions = u.subscriptions;
                  admins = u.admins;
                })))
            (λ _. Committed-rollback false))
  where
    answered :
        (q : AdminRequest → Bool) (st : Status)
        → UniqueRequests (update_where q (answer st s.clock) s.tables.admin_requests)
    answered q st =
        UniqueRequests-update _ _ s.tables.admin_requests (λ x. refl) (λ x. refl) u.requests

upsert_sensor-IsUnique :
    (db : Tables) (client : Bytes) (row : SensorConfig) (change : SensorConfig → SensorConfig)
    → IsUnique db
    → Committed IsUnique (upsert_sensor db client row change)
unfolding upsert_sensor
upsert_sensor-IsUnique db client row change u =
    Committed-if (client_row db client) _ _
      (λ _. Committed-commit true _ (IsUnique-other db _ refl refl refl refl refl refl u))
      (λ _. Committed-raise)

pub set_sensor_status-IsUnique :
    (topic sensor client : Bytes) (b : Bool) (s : Server)
    → IsUnique s.tables
    → IsUnique (set_sensor_status topic sensor client b s).1.tables
unfolding set_sensor_status set_sensor_status_body
set_sensor_status-IsUnique topic sensor client b s u =
    transaction-Committed IsUnique false (set_sensor_status_body topic sensor client b) s u (
      Committed-if (is_topic_admin s.tables topic client) _ _
        (λ _.
          Committed-first_row (select (topic_named topic) s.tables.topics) _ _
            (λ _. Committed-rollback false)
            (λ t ts _. upsert_sensor-IsUnique s.tables client _ _ u))
        (λ _. Committed-rollback false))

pub set_sensor_activable-IsUnique :
    (topic sensor client : Bytes) (b : Bool) (s : Server)
    → IsUnique s.tables
    → IsUnique (set_sensor_activable topic sensor client b s).1.tables
unfolding set_sensor_activable set_sensor_activable_body
set_sensor_activable-IsUnique topic sensor client b s u =
    transaction-Committed IsUnique false (set_sensor_activable_body topic sensor client b) s u (
      Committed-first_row (select (owned_by topic client) s.tables.topics) _ _
        (λ _. Committed-rollback false) (λ t ts _. upsert_sensor-IsUnique s.tables client _ _ u))
