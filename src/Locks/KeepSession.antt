-- ===== src/Locks/KeepSession.antt =====
-- The handlers of src/session.cpp and the check for clients that are no longer active, cut at the
-- locks of the broker, piece by piece.
use tinymq_broker.Base.{
  nat_beq_iff, arith, ◌≡◌, true, false, none, refl, ℕ, zero, suc, not, Bytes, List, [], ◌∷◌, inl,
  inr, Bool-cases,
}
use tinymq_broker.Packet.Types.{PacketType}
use tinymq_broker.Packet.{Packet}
use tinymq_broker.Db.Steps.{initially}
use tinymq_broker.Db.Listings.{Rendering}
use tinymq_broker.Broker.World.{set_object, World, Handle, Json}
use tinymq_broker.Broker.Known.{Stays, authenticated, IsKnown-objects}
use tinymq_broker.Broker.Sessions.{disconnect}
use tinymq_broker.Broker.Reaches.{Follows-self, modify-Reaches}
use tinymq_broker.Broker.Calls.{calling}
use tinymq_broker.Session.Frames.{read_packet}
use tinymq_broker.Session.Handlers.{identify, parse_publish, parse_response}
use tinymq_broker.Locks.Prog.{Prog, ◌>>=◌, ◌>>◌, changes}
use tinymq_broker.Locks.Order.{reading-Guards, objects-Guards}
use tinymq_broker.Locks.Pieces.{Safe-weaken}
use tinymq_broker.Locks.Safe.{
  IsSafe, keeping, ret-IsSafe, option-IsSafe, bind-IsSafe, then-IsSafe, if-IsSafe, find-IsSafe,
  changes-IsSafe,
}
use tinymq_broker.Locks.Keep.{registering_session-IsSafe, removing_session-IsSafe}
use tinymq_broker.Locks.KeepTopics.{subscribing-IsSafe, unsubscribing-IsSafe}
use tinymq_broker.Locks.KeepAdmin.{
  handling_admin_request-IsSafe, handling_admin_response-IsSafe, handling_admin_resignation-IsSafe,
  sending_published_topics-IsSafe, sending_my_admin_topics-IsSafe, sending_my_topics-IsSafe,
  sending_admin_requests_list-IsSafe, sending_my_admin_requests-IsSafe,
  sending_topic_sensors_config-IsSafe,
}
use tinymq_broker.Locks.KeepControl.{publishing-IsSafe}
use tinymq_broker.Locks.Activity.{disconnecting_client, disconnecting_all, checking_client_activity}
use tinymq_broker.Locks.Handlers.{
  sending_ack, if_authenticated, unless_payload_empty, handling_connect, handling_subscribe,
  handling_unsubscribe, handling_publish, receiving_admin_response, processing_packet, serving,
}

sending_ack-IsSafe : (h : Handle) (t : PacketType) (n : ℕ) → IsSafe (h ∷ []) (sending_ack h t n)
unfolding sending_ack
sending_ack-IsSafe h t n = search (keeping)

-- The guard establishes what the program needs.
if_authenticated-IsSafe :
    (hs : List Handle) (h : Handle) (p : Prog (Unit {0}))
    → IsSafe (h ∷ []) p
    → IsSafe hs (if_authenticated h p)
unfolding if_authenticated ◌>>=◌
if_authenticated-IsSafe hs h p s = record {
  steady = (
    (λ w. Follows-self w),
    λ w. elim (Bool-cases (authenticated w h)) [ inl e ↦ rw e s.steady | inr e ↦ rw e tt ],
  );
  safe = λ w n i. elim (Bool-cases (authenticated w h)) [
    | inl e ↦ rw e (i, h ∷ [], (e, tt), Safe-weaken (h ∷ []) (h ∷ hs) p (λ v m. (m.0, tt)) s.safe)
    | inr e ↦ rw e (i, [], tt, tt)
  ];
  orderly = (
    tt,
    reading-Guards none false,
    λ w. elim (Bool-cases (authenticated w h)) [ inl e ↦ rw e s.orderly | inr e ↦ rw e refl ],
  );
}

Stays-identify : (h : Handle) (id : Bytes) (w : World) → Stays w (identify h id w)
unfolding identify set_object
Stays-identify h id w g a = ground arith

authenticated-identify :
    (h : Handle) (id : Bytes) (w : World) → authenticated (identify h id w) h ≡ true
unfolding identify set_object
authenticated-identify h id w = ground (arith, nat_beq_iff h h)

-- From then on the session is authenticated.
identify-IsSafe :
    (hs : List Handle) (h : Handle) (id : Bytes) (p : Prog (Unit {0}))
    → IsSafe (h ∷ []) p
    → IsSafe hs (do changes (identify h id); p)
unfolding identify ◌>>◌ ◌>>=◌
identify-IsSafe hs h id p s = record {
  steady = (
    (λ w. record { database = initially; distinct = λ d. d; stays = Stays-identify h id w }),
    λ w. s.steady,
  );
  safe = λ w n i. (
    IsKnown-objects w _ (Stays-identify h id w) i,
    h ∷ [],
    (authenticated-identify h id w, tt),
    Safe-weaken (h ∷ []) (h ∷ hs) p (λ v m. (m.0, tt)) s.safe,
  );
  orderly = (tt, objects-Guards false _, λ w. s.orderly);
}

Stays-disconnect : (h : Handle) (w : World) → Stays w (disconnect h w)
unfolding disconnect set_object
Stays-disconnect h w g a = ground (arith, nat_beq_iff h g)

disconnect-IsSafe : (hs : List Handle) (h : Handle) → IsSafe hs (changes (disconnect h))
unfolding disconnect
disconnect-IsSafe hs h =
    changes-IsSafe hs _
      (modify-Reaches _ _ (λ w. refl) (λ w d. d) (Stays-disconnect h)
        (λ w n. IsKnown-objects w _ (Stays-disconnect h w)))
      (objects-Guards false _)

disconnecting_client-IsSafe : (o : List Handle) (id : Bytes) → IsSafe o (disconnecting_client id)
unfolding disconnecting_client
disconnecting_client-IsSafe o id =
    find-IsSafe _ id _ (search (keeping))
      λ h. search (keeping, removing_session-IsSafe, disconnect-IsSafe)

disconnecting_all-IsSafe : (o : List Handle) (ids : List Bytes) → IsSafe o (disconnecting_all ids)
unfolding disconnecting_all
disconnecting_all-IsSafe o [] = search (keeping)
disconnecting_all-IsSafe o (c ∷ cs) =
    then-IsSafe _ _ _ (disconnecting_client-IsSafe _ c) (disconnecting_all-IsSafe _ cs)

pub checking_client_activity-IsSafe : (o : List Handle) → IsSafe o checking_client_activity
unfolding checking_client_activity
checking_client_activity-IsSafe o = search (keeping, calling, disconnecting_all-IsSafe) depth 20

handling_connect-IsSafe :
    (o : List Handle) (h : Handle) (payload : Bytes) → IsSafe o (handling_connect h payload)
unfolding handling_connect
handling_connect-IsSafe o h payload = if-IsSafe _ _ _ _ (disconnect-IsSafe _ h) (
    identify-IsSafe _ h payload _
      (search (keeping, sending_ack-IsSafe, registering_session-IsSafe)))

handling_subscribe-IsSafe :
    (o : List Handle) (h : Handle) (payload : Bytes) → IsSafe o (handling_subscribe h payload)
unfolding handling_subscribe
handling_subscribe-IsSafe o h payload =
    search (keeping, if_authenticated-IsSafe, sending_ack-IsSafe, subscribing-IsSafe) depth 15

handling_unsubscribe-IsSafe :
    (o : List Handle) (h : Handle) (payload : Bytes) → IsSafe o (handling_unsubscribe h payload)
unfolding handling_unsubscribe
handling_unsubscribe-IsSafe o h payload =
    search (keeping, if_authenticated-IsSafe, sending_ack-IsSafe, unsubscribing-IsSafe) depth 15

module _ (json : Json) (r : Rendering) where
  handling_publish-IsSafe :
      (o : List Handle) (h : Handle) (payload : Bytes)
      → IsSafe o (handling_publish json r h payload)
  unfolding handling_publish
  handling_publish-IsSafe o h payload = if_authenticated-IsSafe _ h _ (
      option-IsSafe _ (parse_publish payload) _ _ (search (keeping))
        λ p. search (keeping, publishing-IsSafe, sending_ack-IsSafe))

  receiving_admin_response-IsSafe :
      (o : List Handle) (h : Handle) (payload : Bytes)
      → IsSafe o (receiving_admin_response json r h payload)
  unfolding receiving_admin_response
  receiving_admin_response-IsSafe o h payload = if_authenticated-IsSafe _ h _ (
      option-IsSafe _ (parse_response payload) _ _ (search (keeping))
        λ p. handling_admin_response-IsSafe json h p.0 p.1 p.2)

  guarded-IsSafe :
      (o : List Handle) (h : Handle) (payload : Bytes) (m : Prog (Unit {0}))
      → IsSafe (h ∷ []) m
      → IsSafe o (if_authenticated h (unless_payload_empty payload m))
  guarded-IsSafe o h payload m rm = search (keeping, if_authenticated-IsSafe)

  dispatch-IsSafe :
      (o : List Handle) (h : Handle) (t : PacketType) (p : Packet)
      → IsSafe o (processing_packet json r h (record p { packet_type = t }))
  unfolding processing_packet
  dispatch-IsSafe o h PacketType.conn p = handling_connect-IsSafe o h p.payload
  dispatch-IsSafe o h PacketType.pub_ p = handling_publish-IsSafe o h p.payload
  dispatch-IsSafe o h PacketType.sub p = handling_subscribe-IsSafe o h p.payload
  dispatch-IsSafe o h PacketType.unsub p = handling_unsubscribe-IsSafe o h p.payload
  dispatch-IsSafe o h PacketType.topic_req p =
      if_authenticated-IsSafe _ h _ (sending_published_topics-IsSafe r h)
  dispatch-IsSafe o h PacketType.admin_req p =
      guarded-IsSafe o h p.payload _ (handling_admin_request-IsSafe json h p.payload)
  dispatch-IsSafe o h PacketType.admin_response p = receiving_admin_response-IsSafe o h p.payload
  dispatch-IsSafe o h PacketType.admin_list_req p =
      if_authenticated-IsSafe _ h _ (sending_admin_requests_list-IsSafe json r h)
  dispatch-IsSafe o h PacketType.my_topics_req p =
      if_authenticated-IsSafe _ h _ (sending_my_topics-IsSafe json r h)
  dispatch-IsSafe o h PacketType.my_admin_req p =
      if_authenticated-IsSafe _ h _ (sending_my_admin_requests-IsSafe json r h)
  dispatch-IsSafe o h PacketType.my_admin_topics_req p =
      if_authenticated-IsSafe _ h _ (sending_my_admin_topics-IsSafe json r h)
  dispatch-IsSafe o h PacketType.admin_resign p =
      guarded-IsSafe o h p.payload _ (handling_admin_resignation-IsSafe json h p.payload)
  dispatch-IsSafe o h PacketType.topic_sensors_req p =
      guarded-IsSafe o h p.payload _ (sending_topic_sensors_config-IsSafe json r h p.payload)
  dispatch-IsSafe o h _ p = ret-IsSafe _ tt

  pub processing_packet-IsSafe :
      (o : List Handle) (h : Handle) (p : Packet) → IsSafe o (processing_packet json r h p)
  processing_packet-IsSafe o h p = dispatch-IsSafe o h p.packet_type p

  pub serving-IsSafe :
      (o : List Handle) (fuel : ℕ) (h : Handle) (stream : Bytes)
      → IsSafe o (serving json r fuel h stream)
  unfolding serving
  serving-IsSafe o zero h stream = ret-IsSafe _ tt
  serving-IsSafe o (suc fuel) h stream = bind-IsSafe _ _ _ (search (keeping)) λ open_socket.
      if-IsSafe _ (not open_socket) _ _ (removing_session-IsSafe _ h) (
        option-IsSafe _ (read_packet stream) _ _ (removing_session-IsSafe _ h)
          λ p. then-IsSafe _ _ _ (processing_packet-IsSafe _ h p.0) (serving-IsSafe _ fuel h p.1))
