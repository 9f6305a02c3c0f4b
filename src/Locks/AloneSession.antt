-- ===== src/Locks/AloneSession.antt =====
-- The handlers and the life of a connection, cut at the locks of the broker, against those of
-- src/session.cpp in one piece; and so for the check for clients that are no longer active.
use tinymq_broker.Base.{ℕ, zero, suc, not, Bytes, List, [], ◌∷◌}
use tinymq_broker.Packet.Types.{PacketType}
use tinymq_broker.Packet.{Packet}
use tinymq_broker.Db.Listings.{Rendering}
use tinymq_broker.Broker.World.{Handle, M, Json}
use tinymq_broker.Session.Frames.{read_packet}
use tinymq_broker.Broker.Sessions.{disconnect_client, disconnect_all, check_client_activity}
use tinymq_broker.Session.Handlers.{
  send_ack, when_authenticated, unless_empty, handle_connect, handle_subscribe, handle_unsubscribe,
  parse_publish, parse_response, handle_publish, on_admin_response, process_packet, serve,
}
use tinymq_broker.Locks.Prog.{Prog}
use tinymq_broker.Locks.Runs.{
  Runs, running, ret-Runs, option-Runs, bind-Runs, then-Runs, if-Runs, find-Runs,
}
use tinymq_broker.Locks.Alone.{
  registering_session-Runs, removing_session-Runs, subscribing-Runs, unsubscribing-Runs,
}
use tinymq_broker.Locks.AloneAdmin.{
  handling_admin_request-Runs, handling_admin_response-Runs, handling_admin_resignation-Runs,
  sending_published_topics-Runs, sending_my_admin_topics-Runs, sending_my_topics-Runs,
  sending_admin_requests_list-Runs, sending_my_admin_requests-Runs,
  sending_topic_sensors_config-Runs,
}
use tinymq_broker.Locks.AloneControl.{publishing-Runs}
use tinymq_broker.Locks.Activity.{disconnecting_client, disconnecting_all, checking_client_activity}
use tinymq_broker.Locks.Handlers.{
  sending_ack, if_authenticated, unless_payload_empty, handling_connect, handling_subscribe,
  handling_unsubscribe, handling_publish, receiving_admin_response, processing_packet, serving,
}

sending_ack-Runs : (h : Handle) (t : PacketType) (n : ℕ) → Runs (sending_ack h t n) (send_ack h t n)
unfolding sending_ack send_ack
sending_ack-Runs h t n = search (running)

if_authenticated-Runs :
    (h : Handle) (p : Prog (Unit {0})) (m : M (Unit {0}))
    → Runs p m
    → Runs (if_authenticated h p) (when_authenticated h m)
unfolding if_authenticated when_authenticated
if_authenticated-Runs h p m s = search (running)

disconnecting_client-Runs : (id : Bytes) → Runs (disconnecting_client id) (disconnect_client id)
unfolding disconnecting_client disconnect_client
disconnecting_client-Runs id =
    find-Runs id _ _ (search (running)) λ h. search (running, removing_session-Runs)

disconnecting_all-Runs : (ids : List Bytes) → Runs (disconnecting_all ids) (disconnect_all ids)
unfolding disconnecting_all disconnect_all
disconnecting_all-Runs [] = search (running)
disconnecting_all-Runs (c ∷ cs) =
    then-Runs _ _ _ _ (disconnecting_client-Runs c) (disconnecting_all-Runs cs)

pub checking_client_activity-Runs : Runs checking_client_activity check_client_activity
unfolding checking_client_activity check_client_activity
checking_client_activity-Runs = search (running, disconnecting_all-Runs) depth 20

handling_connect-Runs :
    (h : Handle) (payload : Bytes) → Runs (handling_connect h payload) (handle_connect h payload)
unfolding handling_connect handle_connect
handling_connect-Runs h payload =
    search (running, sending_ack-Runs, registering_session-Runs) depth 15

handling_subscribe-Runs :
    (h : Handle) (payload : Bytes)
    → Runs (handling_subscribe h payload) (handle_subscribe h payload)
unfolding handling_subscribe handle_subscribe
handling_subscribe-Runs h payload =
    search (running, if_authenticated-Runs, sending_ack-Runs, subscribing-Runs) depth 15

handling_unsubscribe-Runs :
    (h : Handle) (payload : Bytes)
    → Runs (handling_unsubscribe h payload) (handle_unsubscribe h payload)
unfolding handling_unsubscribe handle_unsubscribe
handling_unsubscribe-Runs h payload =
    search (running, if_authenticated-Runs, sending_ack-Runs, unsubscribing-Runs) depth 15

module _ (json : Json) (r : Rendering) where
  handling_publish-Runs :
      (h : Handle) (payload : Bytes)
      → Runs (handling_publish json r h payload) (handle_publish json r h payload)
  unfolding handling_publish handle_publish
  handling_publish-Runs h payload = if_authenticated-Runs h _ _ (
      option-Runs (parse_publish payload) _ _ _ _ (search (running))
        λ p. search (running, publishing-Runs, sending_ack-Runs))

  receiving_admin_response-Runs :
      (h : Handle) (payload : Bytes)
      → Runs (receiving_admin_response json r h payload) (on_admin_response json r h payload)
  unfolding receiving_admin_response on_admin_response
  receiving_admin_response-Runs h payload = if_authenticated-Runs h _ _ (
      option-Runs (parse_response payload) _ _ _ _ (search (running))
        λ p. handling_admin_response-Runs json h p.0 p.1 p.2)

  guarded-Runs :
      (h : Handle) (payload : Bytes) (p : Prog (Unit {0})) (m : M (Unit {0}))
      → Runs p m
      → Runs
          (if_authenticated h (unless_payload_empty payload p))
          (when_authenticated h (unless_empty payload m))
  guarded-Runs h payload p m rm = search (running, if_authenticated-Runs)

  dispatch-Runs :
      (h : Handle) (t : PacketType) (p : Packet)
      → Runs
          (processing_packet json r h (record p { packet_type = t }))
          (process_packet json r h (record p { packet_type = t }))
  unfolding processing_packet process_packet
  dispatch-Runs h PacketType.conn p = handling_connect-Runs h p.payload
  dispatch-Runs h PacketType.pub_ p = handling_publish-Runs h p.payload
  dispatch-Runs h PacketType.sub p = handling_subscribe-Runs h p.payload
  dispatch-Runs h PacketType.unsub p = handling_unsubscribe-Runs h p.payload
  dispatch-Runs h PacketType.topic_req p =
      if_authenticated-Runs h _ _ (sending_published_topics-Runs r h)
  dispatch-Runs h PacketType.admin_req p =
      guarded-Runs h p.payload _ _ (handling_admin_request-Runs json h p.payload)
  dispatch-Runs h PacketType.admin_response p = receiving_admin_response-Runs h p.payload
  dispatch-Runs h PacketType.admin_list_req p =
      if_authenticated-Runs h _ _ (sending_admin_requests_list-Runs json r h)
  dispatch-Runs h PacketType.my_topics_req p =
      if_authenticated-Runs h _ _ (sending_my_topics-Runs json r h)
  dispatch-Runs h PacketType.my_admin_req p =
      if_authenticated-Runs h _ _ (sending_my_admin_requests-Runs json r h)
  dispatch-Runs h PacketType.my_admin_topics_req p =
      if_authenticated-Runs h _ _ (sending_my_admin_topics-Runs json r h)
  dispatch-Runs h PacketType.admin_resign p =
      guarded-Runs h p.payload _ _ (handling_admin_resignation-Runs json h p.payload)
  dispatch-Runs h PacketType.topic_sensors_req p =
      guarded-Runs h p.payload _ _ (sending_topic_sensors_config-Runs json r h p.payload)
  dispatch-Runs h _ p = ret-Runs tt

  pub processing_packet-Runs :
      (h : Handle) (p : Packet) → Runs (processing_packet json r h p) (process_packet json r h p)
  processing_packet-Runs h p = dispatch-Runs h p.packet_type p

  pub serving-Runs :
      (fuel : ℕ) (h : Handle) (stream : Bytes)
      → Runs (serving json r fuel h stream) (serve json r fuel h stream)
  unfolding serving serve
  serving-Runs zero h stream = ret-Runs tt
  serving-Runs (suc fuel) h stream = bind-Runs _ _ _ _ (search (running)) λ open_socket.
      if-Runs (not open_socket) _ _ _ _ (removing_session-Runs h) (
        option-Runs (read_packet stream) _ _ _ _ (removing_session-Runs h)
          λ p. then-Runs _ _ _ _ (processing_packet-Runs h p.0) (serving-Runs fuel h p.1))
