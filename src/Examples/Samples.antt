-- ===== src/Examples/Samples.antt =====
-- A broker with two subscribers, and a database with two clients and a topic.
use tinymq_broker.Base.{Bytes, true, false, some, none, [], ◌∷◌, nat_beq, if◌then◌else◌, codes}
use tinymq_broker.Packet.Types.{PacketType}
use tinymq_broker.Packet.{Packet}
use tinymq_broker.Db.Tables.{Server, Client, Topic, AdminRequest, pending}
use tinymq_broker.Db.Listings.{Rendering}
use tinymq_broker.Db.Steps.{empty_tables}
use tinymq_broker.Broker.World.{Session, Handle, World, Json}

-- Session 2 and, later, session 4 of client "b", session 3 of client "c"; the others have not
-- identified themselves.
abbrev sample_objects : Handle → Session
sample_objects h =
    if nat_beq h 2
    then record { client_id = codes "b"; is_authenticated = true; is_open = true; endpoint = none }
    else if nat_beq h 3
    then record { client_id = codes "c"; is_authenticated = true; is_open = true; endpoint = none }
    else if nat_beq h 4
    then record { client_id = codes "b"; is_authenticated = true; is_open = true; endpoint = none }
    else record { client_id = []; is_authenticated = false; is_open = true; endpoint = none }

abbrev pub sample_topic : Topic
sample_topic = record {
  id = 1;
  name = codes "t";
  owner_client_id = codes "a";
  created_at = 5;
  publish = true;
}

abbrev sample_request : AdminRequest
sample_request = record {
  id = 1;
  topic_id = 1;
  requester_client_id = codes "b";
  status = pending;
  request_timestamp = 6;
  response_timestamp = none;
}

abbrev sample_client : Bytes → Client
sample_client id = record {
  client_id = id;
  last_connected = 1;
  last_ip = codes "::1";
  last_port = 9;
  connection_count = 1;
  active = true;
}

abbrev pub sample_server : Server
sample_server = record {
  tables = record empty_tables {
    clients = sample_client (codes "a") ∷ sample_client (codes "b") ∷ [];
    topics = sample_topic ∷ [];
    admin_requests = sample_request ∷ [];
    next_topic = 2;
    next_request = 2;
  };
  clock = 7;
  faults = [];
}

abbrev pub sample_world : World
sample_world = record {
  objects = sample_objects;
  sessions = (codes "b", 2) ∷ (codes "c", 3) ∷ [];
  topic_subscribers = (codes "a/t", 2 ∷ 3 ∷ []) ∷ [];
  topic_id_cache = [];
  has_database = true;
  server = sample_server;
  time = 7;
  wire = [];
}

abbrev pub sample_json : Json
sample_json = record {
  parse = λ b. none;
  dump = λ d. some (codes "{}");
  dump_array = λ d. some (codes "[]");
}

-- No document can be dumped.
abbrev pub failing_json : Json
failing_json = record { parse = λ b. none; dump = λ d. none; dump_array = λ d. none }

abbrev pub sample_rendering : Rendering
sample_rendering = record {
  time_text = λ n. n ∷ [];
  epoch_text = λ n. n ∷ [];
  date_text = λ n. n ∷ [];
  id_text = λ n. n ∷ [];
  before = λ a b. true;
}

abbrev pub sub_request : Packet
sub_request = record {
  packet_type = PacketType.sub;
  flags = 0;
  payload_length = 3;
  payload = codes "a/t";
}
