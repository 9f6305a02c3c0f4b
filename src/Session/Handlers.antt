-- ===== src/Session/Handlers.antt =====
-- The handlers of src/session.cpp, the dispatch of process_packet, and the life of a connection.
use tinymq_broker.Base.{
  ℕ, zero, suc, ◌+◌, ◌/◌, ◌%◌, ◌^◌, Bytes, Bool, true, not, Option, none, some, [], ◌∷◌,
  nat_equality, bytes_equality, nat_beq, if◌then◌else◌, is_empty, ltb, length, take, drop,
}
use tinymq_broker.Packet.Types.{PacketType}
use tinymq_broker.Packet.{Packet, make_packet}
use tinymq_broker.Broker.World.{
  Handle, World, M, ◌>>=◌, ◌>>◌, pure, gets, modify, send_packet, set_object, Json,
}
use tinymq_broker.Db.Listings.{Rendering}
use tinymq_broker.Broker.Sessions.{register_session, remove_session, disconnect}
use tinymq_broker.Broker.Subscriptions.{subscribe, unsubscribe}
use tinymq_broker.Broker.Admin.{
  handle_admin_request, handle_admin_response, handle_admin_resignation,
}
use tinymq_broker.Broker.Publish.{publish}
use tinymq_broker.Broker.Listings.{
  send_published_topics, send_my_admin_topics, send_my_topics, send_admin_requests_list,
  send_my_admin_requests, send_topic_sensors_config,
}
use tinymq_broker.Session.Frames.{read_packet}

-- `send_ack`; a packet id of 0 is left out.
unfoldable pub ack_payload : ℕ → Bytes
ack_payload id = if ltb 0 id then (id / 2 ^ 8 % 2 ^ 8) ∷ (id % 2 ^ 8) ∷ [] else []

-- The completion of the `async_write` of `send_packet`, with an error or without.
unfoldable pub on_written : Bool → Handle → M (Unit {0})
on_written failed h = if failed then remove_session h else pure tt

unfoldable pub send_ack : Handle → PacketType → ℕ → M (Unit {0})
send_ack h t id = send_packet h (make_packet t 0 (ack_payload id))

-- `if (!is_authenticated_) return;`.
unfoldable pub when_authenticated : Handle → M (Unit {0}) → M (Unit {0})
when_authenticated h m = do
  authenticated ← gets (λ w. (w.objects h).is_authenticated)
  if authenticated then m else pure tt

-- `if (!payload.empty()) ...`.
abbrev pub unless_empty : Bytes → M (Unit {0}) → M (Unit {0})
unless_empty payload m = if is_empty payload then pure tt else m

-- The client id and the flag are set before the acknowledgement.
unfoldable pub identify : Handle → Bytes → World → World
identify h id w = record w {
  objects =
      set_object h (record (w.objects h) { client_id = id; is_authenticated = true }) w.objects;
}

unfoldable pub handle_connect : Handle → Bytes → M (Unit {0})
handle_connect h payload =
    if is_empty payload
    then modify (disconnect h)
    else (do modify (identify h payload); send_ack h PacketType.connack 0; register_session h)

unfoldable pub handle_subscribe : Handle → Bytes → M (Unit {0})
handle_subscribe h payload =
    when_authenticated h
      (unless_empty payload (do subscribe h payload; send_ack h PacketType.suback 0))

unfoldable pub handle_unsubscribe : Handle → Bytes → M (Unit {0})
handle_unsubscribe h payload =
    when_authenticated h
      (unless_empty payload (do unsubscribe h payload; send_ack h PacketType.unsuback 0))

-- `[topic_len:1][topic][message]`, with a message of one byte at least.
unfoldable pub parse_publish : Bytes → Option (Bytes × Bytes)
parse_publish [] = none
parse_publish (n ∷ rest) = if ltb n (length rest) then some (take n rest, drop n rest) else none

-- `[approved:1][topic_len:1][topic][requester_len:1][requester_id]`.
unfoldable pub parse_response_tail : Bool → Bytes → Bytes → Option (Bytes × Bytes × Bool)
parse_response_tail approved topic [] = none
parse_response_tail approved topic (m ∷ rest) =
    if ltb (length rest) m then none else some (topic, take m rest, approved)

unfoldable pub parse_response : Bytes → Option (Bytes × Bytes × Bool)
parse_response (a ∷ n ∷ rest) =
    if ltb (length rest) (n + 1)
    then none
    else parse_response_tail (not (nat_beq a 0)) (take n rest) (drop n rest)
parse_response _ = none

module _ (json : Json) (r : Rendering) where
  unfoldable pub handle_publish : Handle → Bytes → M (Unit {0})
  handle_publish h payload = when_authenticated h (elim (parse_publish payload) [
    | none ↦ pure tt
    | some (topic, message) ↦ do publish json topic message; send_ack h PacketType.puback 0
  ])

  unfoldable pub on_admin_response : Handle → Bytes → M (Unit {0})
  on_admin_response h payload = when_authenticated h (elim (parse_response payload) [
    | none ↦ pure tt
    | some (topic, requester, approved) ↦ handle_admin_response json h topic requester approved
  ])

  -- The handlers that only call a method of the broker.
  abbrev pub handle_topic_request : Handle → M (Unit {0})
  handle_topic_request h = when_authenticated h (send_published_topics r h)

  abbrev pub handle_admin_list_request : Handle → M (Unit {0})
  handle_admin_list_request h = when_authenticated h (send_admin_requests_list json r h)

  abbrev pub on_admin_request : Handle → Bytes → M (Unit {0})
  on_admin_request h payload =
      when_authenticated h (unless_empty payload (handle_admin_request json h payload))

  -- The switch; other types are only logged.
  unfoldable pub process_packet : Handle → Packet → M (Unit {0})
  process_packet h p = elim p.packet_type [
    | PacketType.conn ↦ handle_connect h p.payload
    | PacketType.pub_ ↦ handle_publish h p.payload
    | PacketType.sub ↦ handle_subscribe h p.payload
    | PacketType.unsub ↦ handle_unsubscribe h p.payload
    | PacketType.topic_req ↦ handle_topic_request h
    | PacketType.admin_req ↦ on_admin_request h p.payload
    | PacketType.admin_response ↦ on_admin_response h p.payload
    | PacketType.admin_list_req ↦ handle_admin_list_request h
    | PacketType.my_topics_req ↦ when_authenticated h (send_my_topics json r h)
    | PacketType.my_admin_req ↦ when_authenticated h (send_my_admin_requests json r h)
    | PacketType.my_admin_topics_req ↦ when_authenticated h (send_my_admin_topics json r h)
    | PacketType.admin_resign ↦
        when_authenticated h (unless_empty p.payload (handle_admin_resignation json h p.payload))
    | PacketType.topic_sensors_req ↦
        when_authenticated h (unless_empty p.payload (send_topic_sensors_config json r h p.payload))
    | _ ↦ pure tt
  ]

  -- A connection from its next header on. A read error, or a socket that was closed, removes the
  -- session; an exception ends the loop with no removal.
  unfoldable pub serve : ℕ → Handle → Bytes → M (Unit {0})
  serve zero h stream = pure tt
  serve (suc fuel) h stream = do
    open_socket ← gets (λ w. (w.objects h).is_open)
    if not open_socket then remove_session h else elim (read_packet stream) [
      | none ↦ remove_session h
      | some (p, rest) ↦ do process_packet h p; serve fuel h rest
    ]
