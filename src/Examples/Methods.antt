-- ===== src/Examples/Methods.antt =====
-- The database at concrete tables, for src/db_manager.cpp.
use tinymq_broker.Base.{
  ◌≡◌, refl, true, false, List, [], ◌∷◌, codes, nat_equality, bytes_equality, bytes_beq, select,
  delete_where, split_at,
}
use tinymq_broker.Db.Tables.{Server, Topic, transaction}
use tinymq_broker.Db.Clients.{register_client}
use tinymq_broker.Db.Topics.{register_topic, owned_by}
use tinymq_broker.Db.Admins.{
  admin_of, respond_to_admin_request, respond_to_admin_request_body, request_admin_status,
  add_topic_admin,
}
use tinymq_broker.Db.Sensors.{set_sensor_status}
use tinymq_broker.Db.Invariant.{IsUnique}
use tinymq_broker.Db.Steps.{
  client_registers, topic_registers, requests, Reach, initially, later, empty_tables,
  Reach-IsUnique,
}
use tinymq_broker.Db.Rights.{
  Refused, granted, superseded, rights_end, approval_sole_admin, add_topic_admin_after_approval,
}
use tinymq_broker.Examples.Samples.{sample_server}

abbrev empty_server : Server
empty_server = record { tables = empty_tables; clock = 1; faults = true ∷ false ∷ [] }

-- The first method meets a fault, the other two run.
abbrev three_steps :
    Reach empty_server
      (register_topic
        (codes "a/t")
        (codes "a")
        (register_client
          (codes "a")
          (codes "::1")
          9
          (register_client (codes "a") (codes "::1") 9 empty_server).1).1).1
three_steps =
    later
      (later (later initially (client_registers (codes "a") (codes "::1") 9))
        (client_registers (codes "a") (codes "::1") 9))
      (topic_registers (codes "a/t") (codes "a"))

Reach-IsUnique_example :
    IsUnique
      (register_topic
        (codes "a/t")
        (codes "a")
        (register_client
          (codes "a")
          (codes "::1")
          9
          (register_client (codes "a") (codes "::1") 9 empty_server).1).1).1.tables
Reach-IsUnique_example = Reach-IsUnique refl three_steps

approved_example :
    (respond_to_admin_request (codes "t") (codes "a") (codes "b") true sample_server).0 ≡ true
unfolding transaction respond_to_admin_request respond_to_admin_request_body owned_by bytes_beq
    select delete_where
approved_example = refl

approval_sole_admin_example :
    let tables =
      (respond_to_admin_request (codes "t") (codes "a") (codes "b") true sample_server).1.tables in
    (t : Topic) × (ts : List Topic) × (select
        (owned_by (codes "t") (codes "a"))
        sample_server.tables.topics
      ≡ t ∷ ts)
    × (select (admin_of t.id) tables.topic_admins
        ≡ granted (codes "t") (codes "a") (codes "b") sample_server t ∷ [])
    × (tables.topics ≡ sample_server.tables.topics)
approval_sole_admin_example =
    approval_sole_admin (codes "t") (codes "a") (codes "b") sample_server approved_example

-- A database that methods have filled: two clients, a topic of "a", and a request of "b".
abbrev s1 : Server
s1 = (register_client (codes "a") (codes "::1") 9 (record empty_server { faults = [] })).1

abbrev s2 : Server
s2 = (register_client (codes "b") (codes "::1") 9 s1).1

abbrev pub s3 : Server
s3 = (register_topic (codes "a/t") (codes "a") s2).1

abbrev s4 : Server
s4 = (request_admin_status (codes "t") (codes "b") s3).1

abbrev to_s3 : Reach (record empty_server { faults = [] }) s3
to_s3 =
    later
      (later (later initially (client_registers (codes "a") (codes "::1") 9))
        (client_registers (codes "b") (codes "::1") 9))
      (topic_registers (codes "a/t") (codes "a"))

pub s3-IsUnique : IsUnique s3.tables
s3-IsUnique = Reach-IsUnique {s = record empty_server { faults = [] }} refl to_s3

s4-IsUnique : IsUnique s4.tables
s4-IsUnique =
    Reach-IsUnique {s = record empty_server { faults = [] }} refl
      (later to_s3 (requests (codes "t") (codes "b")))

s4_approved : (respond_to_admin_request (codes "t") (codes "a") (codes "b") true s4).0 ≡ true
unfolding transaction respond_to_admin_request respond_to_admin_request_body owned_by bytes_beq
    select delete_where register_client register_topic request_admin_status split_at
s4_approved = refl

add_topic_admin_after_approval_example :
    Refused
      (add_topic_admin
        (codes "t")
        (codes "b")
        (respond_to_admin_request (codes "t") (codes "a") (codes "b") true s4).1)
      (respond_to_admin_request (codes "t") (codes "a") (codes "b") true s4).1
add_topic_admin_after_approval_example =
    add_topic_admin_after_approval (codes "t") (codes "a") (codes "b") s4 s4-IsUnique s4_approved

-- Client "a" owns the topic, and is refused once "b" administers it.
rights_end_example :
    Refused
      (set_sensor_status
        (codes "t")
        (codes "lamp")
        (codes "a")
        true
        (respond_to_admin_request (codes "t") (codes "a") (codes "b") true s4).1)
      (respond_to_admin_request (codes "t") (codes "a") (codes "b") true s4).1
unfolding bytes_beq
rights_end_example =
    rights_end (codes "t") (codes "a") s4 (codes "lamp") true s4-IsUnique
      (superseded (codes "a") (codes "b") refl s4_approved)
