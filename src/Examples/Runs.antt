-- ===== src/Examples/Runs.antt =====
-- A client that connects, subscribes and leaves, for the event loop of src/broker.cpp.
use tinymq_broker.Base.{◌≡◌, refl, some, [], ◌∷◌, codes, arith}
use tinymq_broker.Packet.Types.{PacketType}
use tinymq_broker.Packet.{Packet}
use tinymq_broker.Db.Steps.{empty_tables}
use tinymq_broker.Broker.World.{World, set_object, ◌>>=◌, gets}
use tinymq_broker.Broker.Sessions.{remove_session}
use tinymq_broker.Session.Handlers.{process_packet, serve, handle_subscribe, when_authenticated}
use tinymq_broker.Session.Events.{
  accepts, receives, loses, Run, begins, goes_on, IsBlank, Run-Silent,
}
use tinymq_broker.Broker.Once.{sent_to}
use tinymq_broker.Broker.Lifecycle.{new_session}
use tinymq_broker.Session.Enough.{serve_enough}
use tinymq_broker.Examples.Samples.{sample_world, sample_json, sample_rendering, sub_request}

abbrev empty_world : World
empty_world = record sample_world {
  sessions = [];
  topic_subscribers = [];
  server = record { tables = empty_tables; clock = 1; faults = [] };
}

abbrev connect_request : Packet
connect_request = record {
  packet_type = PacketType.conn;
  flags = 0;
  payload_length = 1;
  payload = codes "a";
}

abbrev accepted : World
accepted = record empty_world {
  objects = set_object 9 (new_session (some (codes "::1", 5))) empty_world.objects;
}

abbrev connected : World
connected = (process_packet sample_json sample_rendering 9 connect_request accepted).1

abbrev subscribed : World
subscribed = (process_packet sample_json sample_rendering 9 sub_request connected).1

abbrev left : World
left = (remove_session 9 subscribed).1

abbrev visit : Run sample_json sample_rendering empty_world left
visit =
    goes_on
      (goes_on
        (goes_on (goes_on begins (accepts 9 (some (codes "::1", 5)) refl))
          (receives 9 connect_request))
        (receives 9 sub_request))
      (loses 9)

empty_world-IsBlank : IsBlank empty_world
empty_world-IsBlank = record { no_sessions = refl; no_topics = refl; no_packets = refl }

-- A subscription before `CONN` is ignored.
abbrev intruded : World
intruded = (process_packet sample_json sample_rendering 9 sub_request accepted).1

abbrev intrusion : Run sample_json sample_rendering empty_world intruded
intrusion =
    goes_on (goes_on begins (accepts 9 (some (codes "::1", 5)) refl)) (receives 9 sub_request)

Run-Silent_example : sent_to 9 intruded.wire ≡ 0
unfolding process_packet handle_subscribe when_authenticated ◌>>=◌ gets set_object
Run-Silent_example = Run-Silent sample_json sample_rendering 9 empty_world-IsBlank intrusion refl

serve_enough_example :
    serve sample_json sample_rendering 7 9 (3 ∷ 0 ∷ 0 ∷ 0 ∷ 1 ∷ []) accepted
    ≡ serve sample_json sample_rendering 6 9 (3 ∷ 0 ∷ 0 ∷ 0 ∷ 1 ∷ []) accepted
serve_enough_example =
    serve_enough sample_json sample_rendering 7 6 9 (3 ∷ 0 ∷ 0 ∷ 0 ∷ 1 ∷ []) accepted (omega arith)
      (omega arith)
