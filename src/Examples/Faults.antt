-- ===== src/Examples/Faults.antt =====
-- Runs in which src/broker.cpp does not do what it means to.
use tinymq_broker.Base.{
  nat_equality, ◌==◌, if◌then◌else◌, List, ap, select, Bytes, lookup, bytes_beq, bytes_equality, [],
  contains_text, ◌≡◌, refl, true, some, ◌∷◌, ◌++◌, codes, arith, split_at, starts_with,
}
use tinymq_broker.Db.Naming.{slash}
use tinymq_broker.Broker.World.{Handle, World, Result, ok, Json, Value}
use tinymq_broker.Packet.Types.{PacketType}
use tinymq_broker.Packet.{Packet, make_packet}
use tinymq_broker.Db.Tables.{transaction}
use tinymq_broker.Db.Clients.{client_row}
use tinymq_broker.Db.Topics.{get_topic_owner}
use tinymq_broker.Db.Admins.{is_topic_admin, admin_row}
use tinymq_broker.Broker.Admin.{handle_admin_request}
use tinymq_broker.Broker.Publish.{publish}
use tinymq_broker.Broker.Sensors.{sends_more, IsCommand, after_command, sensor_command-sent}
use tinymq_broker.Db.Sensors.{set_sensor_status, set_sensor_status_body, upsert_sensor}
use tinymq_broker.Broker.Names.{extract_client_id}
use tinymq_broker.Broker.Requests.{admin_request_lost}
use tinymq_broker.Broker.Listings.{send_topic_list}
use tinymq_broker.Broker.Forged.{forged, topic_list_forged}
use tinymq_broker.Session.Handlers.{handle_publish}
use tinymq_broker.Session.Sender.{sender_impersonates}
use tinymq_broker.Examples.Samples.{sample_rendering, sample_world, sample_server, sample_json}

admin_request_lost_example :
    (handle_admin_request sample_json 2
      (codes "a" ++ slash ∷ codes "t")
      sample_world).1.server.tables
    ≡ sample_world.server.tables
admin_request_lost_example =
    admin_request_lost sample_json 2 (codes "a") (codes "t") sample_world
      (((λ e. absurd (omega arith)), tt), tt)

-- Every text is a JSON object that commands client "b" to the lamp of topic "t".
abbrev named_command : Value
named_command = record {
  contains = λ s. true;
  get_bool = λ s. some true;
  get_string = λ s. some (
      if codes s == codes "topic_name"
      then codes "t"
      else if codes s == codes "sensor_name"
      then codes "lamp"
      else codes "b");
}

abbrev named_json : Json
named_json = record sample_json { parse = λ b. some named_command }

-- Client "b", at session 2, administers the topic of "a", at session 4.
abbrev lamp_world : World
lamp_world = record sample_world {
  sessions = (codes "b", 2) ∷ (codes "a", 4) ∷ [];
  server = record sample_server {
    tables = record sample_server.tables {
      topic_admins = record { topic_id = 1; admin_client_id = codes "b"; granted_at = 6 } ∷ [];
    };
  };
}

abbrev to_lamp : Bytes
to_lamp = codes "command set_sensor"

lamp_world-IsCommand :
    IsCommand named_json to_lamp
      (codes "t")
      (codes "lamp")
      (codes "b")
      (codes "{}")
      (codes "{}")
      true
      named_command
      lamp_world
unfolding contains_text starts_with bytes_beq
lamp_world-IsCommand = record {
  unmarked = (refl, refl, refl, refl, refl, refl, refl, refl);
  marked = refl;
  external = refl;
  parsed = refl;
  names_topic = refl;
  names_sensor = refl;
  sets = refl;
  has_client = refl;
  names_client = refl;
  with_database = refl;
  confirms = refl;
  commands = refl;
}

-- Both packets are sent.
abbrev lamp_packets : List (Handle × Packet)
lamp_packets =
    (2, make_packet PacketType.sensor_status_resp 0 (codes "{}"))
    ∷ (4, make_packet PacketType.admin_notify 0 (codes "{}"))
    ∷ []

sensor_command-sent_example :
    (publish named_json (codes "a/t") to_lamp lamp_world).1.wire ≡ lamp_packets
unfolding extract_client_id split_at starts_with lookup bytes_beq get_topic_owner transaction select
    set_sensor_status set_sensor_status_body is_topic_admin admin_row upsert_sensor client_row
sensor_command-sent_example =
    ap (λ (x : Result (Unit {0}) × World). x.1.wire)
      (sensor_command-sent named_json (codes "a/t") to_lamp (codes "t") (codes "lamp") (codes "b")
        (codes "{}") (codes "{}") true named_command lamp_world lamp_world-IsCommand)

topic_list_forged_example :
    send_topic_list 2 ((forged (codes "t") (codes "a") (codes "u"), codes "b") ∷ []) sample_world
    ≡ send_topic_list 2 ((codes "t", codes "a") ∷ (codes "u", codes "b") ∷ []) sample_world
topic_list_forged_example =
    topic_list_forged 2 (codes "t") (codes "a") (codes "u") (codes "b") sample_world

-- Session 3 belongs to client "c".
sender_impersonates_example :
    handle_publish named_json sample_rendering 3 (3 ∷ codes "a/t" ++ to_lamp) lamp_world ≡ (
      ok tt,
      sends_more
          (after_command named_json
            (codes "t")
            (codes "lamp")
            (codes "b")
            (codes "{}")
            (codes "{}")
            true
            lamp_world)
          ((3, make_packet PacketType.puback 0 []) ∷ []),
    )
sender_impersonates_example =
    sender_impersonates named_json sample_rendering 3 (codes "a/t") to_lamp (codes "t")
      (codes "lamp") (codes "b") (codes "{}") (codes "{}") true named_command lamp_world refl
      (omega arith) lamp_world-IsCommand
