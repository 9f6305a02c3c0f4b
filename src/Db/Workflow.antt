-- ===== src/Db/Workflow.antt =====
-- From the request of a client to its administration of a topic, and to the sensors that it sets:
-- the methods of src/db_manager.cpp one after the other.
use tinymq_broker.Base.{
  ◌≡◌, refl, ap, ◌∙◌, Bytes, Bool, true, false, List, [], ◌∷◌, nat_equality, bytes_equality, select,
  delete_where, select_stronger,
}
use tinymq_broker.Db.Tables.{Topic, TopicAdmin, Server}
use tinymq_broker.Db.Clients.{client_row}
use tinymq_broker.Db.Topics.{owned_by}
use tinymq_broker.Db.Admins.{
  topic_named, admin_of, request_admin_status, resign_admin_status, respond_to_admin_request,
}
use tinymq_broker.Db.Sensors.{set_sensor_status}
use tinymq_broker.Db.Invariant.{IsUnique}
use tinymq_broker.Db.Rights.{owned_by-named, resigned, rights_end}
use tinymq_broker.Db.PreserveAdmins.{
  request_admin_status-IsUnique, respond_to_admin_request-IsUnique, set_sensor_status-IsUnique,
}
use tinymq_broker.Db.Granted.{
  same_client, request-Step, request-opens, respond-Step, sensor-Step, resign-Step,
}

-- On unique tables (`IsUnique`), while no transaction fails for a reason outside the tables: if a
-- topic has this owner and the requester is a known client, then these calls, one after the other,
-- succeed: the request, the owner's approval of it, whatever requests and administrators there were
-- before, the requester's setting of any sensor of the topic, and its resignation; and after that it
-- cannot set the sensor any more.
pub admin_workflow :
    (topic owner requester sensor : Bytes) (active : Bool) (s : Server) (t : Topic)
    (ts : List Topic)
    → IsUnique s.tables
    → s.faults ≡ []
    → select (owned_by topic owner) s.tables.topics ≡ t ∷ ts
    → client_row s.tables requester ≡ true
    → let requested = request_admin_status topic requester s in
      let approved = respond_to_admin_request topic owner requester true requested.1 in
      let set = set_sensor_status topic sensor requester active approved.1 in
      let resigned = resign_admin_status topic requester set.1 in
      (requested.0 ≡ true)
      × (approved.0 ≡ true)
      × (set.0 ≡ true)
      × (resigned.0 ≡ true)
      × ((set_sensor_status topic sensor requester active resigned.1).0 ≡ false)
admin_workflow topic owner requester sensor active s t ts u f owned known =
    let found =
      select_stronger (owned_by topic owner) (topic_named topic) s.tables.topics t ts
        (owned_by-named topic owner) (u.topics.names topic) owned in
    let s1 = (request_admin_status topic requester s).1 in
    let r = request-Step topic requester t s f found known in
    let a =
      respond-Step topic requester t s1 owner ts r.1
        (ap (select (owned_by topic owner)) r.2 ∙ owned)
        (same_client s.tables s1.tables requester r.3 known)
        (request-opens topic requester t s f found known) in
    let s2 = (respond_to_admin_request topic owner requester true s1).1 in
    let found2 : select (topic_named topic) s2.tables.topics ≡ t ∷ [] =
      ap (select (topic_named topic)) (a.0.2 ∙ r.2) ∙ found in
    let left = delete_where (admin_of t.id) s1.tables.topic_admins in
    let g : TopicAdmin = record {
      topic_id = t.id;
      admin_client_id = requester;
      granted_at = s1.clock;
    } in
    let b =
      sensor-Step topic requester t s2 sensor active left g a.0.1 found2
        (same_client s.tables s2.tables requester (a.0.3 ∙ r.3) known) a.1 refl refl in
    let s3 = (set_sensor_status topic sensor requester active s2).1 in
    let found3 : select (topic_named topic) s3.tables.topics ≡ t ∷ [] =
      ap (select (topic_named topic)) b.0.2 ∙ found2 in
    let c = resign-Step topic requester t s3 left g b.0.1 found3 (b.1 ∙ a.1) refl refl in
    let u3 = set_sensor_status-IsUnique topic sensor requester active s2 (
      respond_to_admin_request-IsUnique topic owner requester true s1
        (request_admin_status-IsUnique topic requester s u)) in
    (r.0, a.0.0, b.0.0, c.0, (rights_end topic requester s3 sensor active u3 (resigned c.0)).0)
