-- ===== src/Examples/Records.antt =====
-- Requests, grants and subscriptions that the database keeps, for src/db_manager.cpp.
use tinymq_broker.Base.{
  false, ◌≡◌, refl, true, false, [], codes, nat_equality, bytes_equality, bytes_beq, select,
  split_at, starts_with,
}
use tinymq_broker.Db.Tables.{Topic, transaction}
use tinymq_broker.Db.Names.{stored_name}
use tinymq_broker.Db.Clients.{register_client, client_row}
use tinymq_broker.Db.Topics.{register_topic, owned_by}
use tinymq_broker.Db.Subscriptions.{subscribed_row}
use tinymq_broker.Db.Admins.{request_admin_status, respond_to_admin_request, resign_admin_status}
use tinymq_broker.Db.Sensors.{set_sensor_status}
use tinymq_broker.Db.Workflow.{admin_workflow}
use tinymq_broker.Broker.Names.{extract_client_id}
use tinymq_broker.Broker.Subscriptions.{subscribe}
use tinymq_broker.Broker.Subscribed.{is_subscribed}
use tinymq_broker.Broker.Recorded.{subscribe-Recorded}
use tinymq_broker.Examples.Methods.{s3, s3-IsUnique}
use tinymq_broker.Examples.Samples.{sample_world}

abbrev private_topic : Topic
private_topic = record {
  id = 1;
  name = codes "t";
  owner_client_id = codes "a";
  created_at = 1;
  publish = false;
}

admin_workflow_example :
    let requested = request_admin_status (codes "t") (codes "b") s3 in
    let approved = respond_to_admin_request (codes "t") (codes "a") (codes "b") true requested.1 in
    let set = set_sensor_status (codes "t") (codes "lamp") (codes "b") true approved.1 in
    let resigned = resign_admin_status (codes "t") (codes "b") set.1 in
    (requested.0 ≡ true)
    × (approved.0 ≡ true)
    × (set.0 ≡ true)
    × (resigned.0 ≡ true)
    × ((set_sensor_status (codes "t") (codes "lamp") (codes "b") true resigned.1).0 ≡ false)
unfolding transaction register_client register_topic owned_by bytes_beq select split_at client_row
admin_workflow_example =
    admin_workflow (codes "t") (codes "a") (codes "b") (codes "lamp") true s3 private_topic []
      s3-IsUnique refl refl refl

-- A topic that the table does not have yet.
subscribe-Recorded_example :
    let v = (subscribe 2 (codes "a/u") sample_world).1 in
    (subscribed_row v.server.tables (codes "b") (stored_name (codes "a/u")) ≡ true)
    × (is_subscribed v (codes "a/u") 2 ≡ true)
unfolding client_row select bytes_beq extract_client_id split_at starts_with
subscribe-Recorded_example =
    subscribe-Recorded 2 (codes "a/u") sample_world refl refl refl refl refl
