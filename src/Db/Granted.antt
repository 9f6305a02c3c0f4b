-- ===== src/Db/Granted.antt =====
-- What a request for the administration of a topic, its approval, a sensor command and a resignation
-- answer and leave, each in turn: methods of src/db_manager.cpp.
use tinymq_broker.Base.{
  ℕ, ◌≡◌, ap, ◌∙◌, inl, inr, Bytes, Bool, true, ◌&&◌, List, [], ◌∷◌, ◌++◌, ◌==◌, nat_equality,
  bytes_equality, nat_beq_iff, bytes_beq_iff, none, beq_self, List-cases, select, delete_where,
  has_row, has_row-append, has_row-update, has_row-selected, selected-holds, select-delete_self,
  select_none, arith,
}
use tinymq_broker.Db.Tables.{
  Client, Topic, TopicAdmin, AdminRequest, Tables, Server, transaction, pending,
}
use tinymq_broker.Db.Clients.{client_row}
use tinymq_broker.Db.Topics.{owned_by}
use tinymq_broker.Db.Subscriptions.{topic_with_id}
use tinymq_broker.Db.Admins.{
  topic_named, admin_is, admin_of, request_of, is_pending, open_request, insert_admin, admin_row,
  is_topic_admin, request_admin_status, request_admin_status_body, resign_admin_status,
  resign_admin_status_body, respond_to_admin_request, respond_to_admin_request_body,
}
use tinymq_broker.Db.Sensors.{upsert_sensor, set_sensor_status, set_sensor_status_body}

-- What a step answers and leaves, if it succeeds.
abbrev pub Step : Bool × Server → Server → Type 0
Step r s =
    (r.0 ≡ true)
    × (r.1.faults ≡ [])
    × (r.1.tables.topics ≡ s.tables.topics)
    × (r.1.tables.clients ≡ s.tables.clients)

pending-open :
    (i : ℕ) (id : Bytes) (r : AdminRequest)
    → request_of i id r ≡ true
    → is_pending r.status ≡ true
    → open_request i id r ≡ true
unfolding open_request
pending-open i id r e f = ground arith

pub same_client :
    (old new : Tables) (id : Bytes)
    → new.clients ≡ old.clients
    → client_row old id ≡ true
    → client_row new id ≡ true
unfolding client_row
same_client old new id e known = ap (has_row (λ (c : Client). c.client_id == id)) e ∙ known

module _ (topic requester : Bytes) (t : Topic) (s : Server) where
  pub request-Step :
      s.faults ≡ []
      → select (topic_named topic) s.tables.topics ≡ t ∷ []
      → client_row s.tables requester ≡ true
      → Step (request_admin_status topic requester s) s
  unfolding transaction request_admin_status request_admin_status_body
  request-Step f found known = (ground arith, ground arith, ground arith, ground arith)

  pub request-opens :
      s.faults ≡ []
      → select (topic_named topic) s.tables.topics ≡ t ∷ []
      → client_row s.tables requester ≡ true
      → has_row
          (open_request t.id requester)
          (request_admin_status topic requester s).1.tables.admin_requests
        ≡ true
  unfolding transaction request_admin_status request_admin_status_body open_request request_of
      is_pending
  request-opens f found known =
      elim (List-cases (select (request_of t.id requester) s.tables.admin_requests)) [
        | inl none_old ↦ ground (
          arith,
          f,
          found,
          known,
          none_old,
          beq_self requester,
          nat_beq_iff t.id t.id,
          has_row-append (open_request t.id requester) s.tables.admin_requests (record {
            id = s.tables.next_request;
            topic_id = t.id;
            requester_client_id = requester;
            status = pending;
            request_timestamp = s.clock;
            response_timestamp = none;
          }),
        )
        | inr (old, olds, e) ↦ ground (
          arith,
          f,
          found,
          known,
          e,
          has_row-update (request_of t.id requester) (open_request t.id requester)
              (λ r. record r {
                status = pending;
                request_timestamp = s.clock;
                response_timestamp = none;
              })
              s.tables.admin_requests (λ r h. ground arith),
        )
      ]

  pub respond-Step :
      (owner : Bytes) (ts : List Topic)
      → s.faults ≡ []
      → select (owned_by topic owner) s.tables.topics ≡ t ∷ ts
      → client_row s.tables requester ≡ true
      → has_row (open_request t.id requester) s.tables.admin_requests ≡ true
      → Step (respond_to_admin_request topic owner requester true s) s
        × (respond_to_admin_request topic owner requester true s).1.tables.topic_admins
          ≡ delete_where (admin_of t.id) s.tables.topic_admins
            ++ (record { topic_id = t.id; admin_client_id = requester; granted_at = s.clock }) ∷ []
  unfolding transaction respond_to_admin_request respond_to_admin_request_body insert_admin
  respond-Step owner ts f owned known opened =
      let there : topic_with_id s.tables t.id ≡ true =
        has_row-selected (owned_by topic owner) (λ x. x.id == t.id) s.tables.topics t ts owned
          (ground (arith, nat_beq_iff t.id t.id)) in
      let free : select (admin_is t.id requester)
            (delete_where (admin_of t.id) s.tables.topic_admins)
          ≡ [] =
        select_none (admin_is t.id requester) (admin_of t.id)
          (delete_where (admin_of t.id) s.tables.topic_admins) (λ a h. ground arith)
          (select-delete_self (admin_of t.id) s.tables.topic_admins) in
      ((ground arith, ground arith, ground arith, ground arith), ground arith)

  granted-is_topic_admin :
      (left : List TopicAdmin) (g : TopicAdmin)
      → select (topic_named topic) s.tables.topics ≡ t ∷ []
      → s.tables.topic_admins ≡ left ++ g ∷ []
      → g.topic_id ≡ t.id
      → g.admin_client_id ≡ requester
      → is_topic_admin s.tables topic requester ≡ true
  unfolding is_topic_admin admin_row
  granted-is_topic_admin left g found granted at by =
      let there : has_row (λ x. g.topic_id == x.id && topic_named topic x) s.tables.topics ≡ true =
        has_row-selected (topic_named topic) (λ x. g.topic_id == x.id && topic_named topic x)
          s.tables.topics t [] found
          (ground (
            arith,
            nat_beq_iff g.topic_id t.id,
            selected-holds (topic_named topic) s.tables.topics t [] found,
          )) in
      rw granted (
        has_row-append _ left g
          (ground (arith, beq_self requester, bytes_beq_iff g.admin_client_id requester)))

  pub sensor-Step :
      (sensor : Bytes) (active : Bool) (left : List TopicAdmin) (g : TopicAdmin)
      → s.faults ≡ []
      → select (topic_named topic) s.tables.topics ≡ t ∷ []
      → client_row s.tables requester ≡ true
      → s.tables.topic_admins ≡ left ++ g ∷ []
      → g.topic_id ≡ t.id
      → g.admin_client_id ≡ requester
      → Step (set_sensor_status topic sensor requester active s) s
        × (set_sensor_status topic sensor requester active s).1.tables.topic_admins
          ≡ s.tables.topic_admins
  unfolding transaction set_sensor_status set_sensor_status_body upsert_sensor
  sensor-Step sensor active left g f found known granted at by =
      let admin = granted-is_topic_admin left g found granted at by in
      ((ground arith, ground arith, ground arith, ground arith), ground arith)

  pub resign-Step :
      (left : List TopicAdmin) (g : TopicAdmin)
      → s.faults ≡ []
      → select (topic_named topic) s.tables.topics ≡ t ∷ []
      → s.tables.topic_admins ≡ left ++ g ∷ []
      → g.topic_id ≡ t.id
      → g.admin_client_id ≡ requester
      → Step (resign_admin_status topic requester s) s
  unfolding transaction resign_admin_status resign_admin_status_body
  resign-Step left g f found granted at by =
      let admin : has_row (admin_is t.id requester) s.tables.topic_admins ≡ true = rw granted (
        has_row-append (admin_is t.id requester) left g (
          ground (
            arith,
            nat_beq_iff g.topic_id t.id,
            beq_self requester,
            bytes_beq_iff g.admin_client_id requester,
          ))) in
      (ground arith, ground arith, ground arith, ground arith)
