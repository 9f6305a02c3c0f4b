-- ===== src/Locks/Handlers.antt =====
-- The handlers of src/session.cpp and the life of a connection, as the pieces that they run in the
-- broker. Its own thread alone writes a session's client id and its flag.
use tinymq_broker.Base.{ℕ, zero, suc, Bytes, not, none, some, if◌then◌else◌, is_empty}
use tinymq_broker.Packet.Types.{PacketType}
use tinymq_broker.Packet.{Packet, make_packet}
use tinymq_broker.Broker.World.{Handle, Json}
use tinymq_broker.Db.Listings.{Rendering}
use tinymq_broker.Broker.Sessions.{disconnect}
use tinymq_broker.Session.Frames.{read_packet}
use tinymq_broker.Session.Handlers.{ack_payload, identify, parse_publish, parse_response}
use tinymq_broker.Locks.Prog.{Prog, ret, ◌>>=◌, ◌>>◌, reads, changes, sends}
use tinymq_broker.Locks.Methods.{registering_session, removing_session, subscribing, unsubscribing}
use tinymq_broker.Locks.Requests.{
  handling_admin_request, handling_admin_response, handling_admin_resignation,
}
use tinymq_broker.Locks.Control.{publishing}
use tinymq_broker.Locks.Lists.{
  sending_published_topics, sending_my_admin_topics, sending_my_topics, sending_admin_requests_list,
  sending_my_admin_requests, sending_topic_sensors_config,
}

unfoldable pub sending_ack : Handle → PacketType → ℕ → Prog (Unit {0})
sending_ack h t id = sends h (make_packet t 0 (ack_payload id))

-- `if (!is_authenticated_) return;`.
unfoldable pub if_authenticated : Handle → Prog (Unit {0}) → Prog (Unit {0})
if_authenticated h m = do
  authenticated ← reads (λ w. (w.objects h).is_authenticated)
  if authenticated then m else ret tt

-- `if (!payload.empty()) ...`.
abbrev pub unless_payload_empty : Bytes → Prog (Unit {0}) → Prog (Unit {0})
unless_payload_empty payload m = if is_empty payload then ret tt else m

unfoldable pub handling_connect : Handle → Bytes → Prog (Unit {0})
handling_connect h payload = if is_empty payload then changes (disconnect h) else (do
  changes (identify h payload)
  sending_ack h PacketType.connack 0
  registering_session h)

unfoldable pub handling_subscribe : Handle → Bytes → Prog (Unit {0})
handling_subscribe h payload =
    if_authenticated h
      (unless_payload_empty payload (do subscribing h payload; sending_ack h PacketType.suback 0))

unfoldable pub handling_unsubscribe : Handle → Bytes → Prog (Unit {0})
handling_unsubscribe h payload =
    if_authenticated h (
      unless_payload_empty payload
        (do unsubscribing h payload; sending_ack h PacketType.unsuback 0))

module _ (json : Json) (r : Rendering) where
  unfoldable pub handling_publish : Handle → Bytes → Prog (Unit {0})
  handling_publish h payload = if_authenticated h (elim (parse_publish payload) [
    | none ↦ ret tt
    | some (topic, message) ↦ do publishing json topic message; sending_ack h PacketType.puback 0
  ])

  unfoldable pub receiving_admin_response : Handle → Bytes → Prog (Unit {0})
  receiving_admin_response h payload = if_authenticated h (elim (parse_response payload) [
    | none ↦ ret tt
    | some (topic, requester, approved) ↦ handling_admin_response json h topic requester approved
  ])

  -- The switch; other types are only logged.
  unfoldable pub processing_packet : Handle → Packet → Prog (Unit {0})
  processing_packet h p = elim p.packet_type [
    | PacketType.conn ↦ handling_connect h p.payload
    | PacketType.pub_ ↦ handling_publish h p.payload
    | PacketType.sub ↦ handling_subscribe h p.payload
    | PacketType.unsub ↦ handling_unsubscribe h p.payload
    | PacketType.topic_req ↦ if_authenticated h (sending_published_topics r h)
    | PacketType.admin_req ↦
        if_authenticated h
          (unless_payload_empty p.payload (handling_admin_request json h p.payload))
    | PacketType.admin_response ↦ receiving_admin_response h p.payload
    | PacketType.admin_list_req ↦ if_authenticated h (sending_admin_requests_list json r h)
    | PacketType.my_topics_req ↦ if_authenticated h (sending_my_topics json r h)
    | PacketType.my_admin_req ↦ if_authenticated h (sending_my_admin_requests json r h)
    | PacketType.my_admin_topics_req ↦ if_authenticated h (sending_my_admin_topics json r h)
    | PacketType.admin_resign ↦
        if_authenticated h
          (unless_payload_empty p.payload (handling_admin_resignation json h p.payload))
    | PacketType.topic_sensors_req ↦
        if_authenticated h
          (unless_payload_empty p.payload (sending_topic_sensors_config json r h p.payload))
    | _ ↦ ret tt
  ]

  -- A connection from its next header on. A read error, or a socket that was closed, removes the
  -- session; an exception ends the loop with no removal.
  unfoldable pub serving : ℕ → Handle → Bytes → Prog (Unit {0})
  serving zero h stream = ret tt
  serving (suc fuel) h stream = do
    open_socket ← reads (λ w. (w.objects h).is_open)
    if not open_socket then removing_session h else elim (read_packet stream) [
      | none ↦ removing_session h
      | some (p, rest) ↦ do processing_packet h p; serving fuel h rest
    ]
