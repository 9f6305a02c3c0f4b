-- ===== src/Session/Connect.antt =====
-- `Session::handle_connect` of src/session.cpp.
use tinymq_broker.Base.{
  ◌≡◌, refl, ◌∙◌, Bytes, true, false, some, [], ◌∷◌, ◌++◌, ◌==◌, nat_equality, bytes_equality,
  beq_self, is_empty, if◌then◌else◌, nat_beq_iff, lookup, lookup-assign, arith,
}
use tinymq_broker.Packet.Types.{PacketType}
use tinymq_broker.Packet.{make_packet}
use tinymq_broker.Broker.World.{
  Handle, World, ok, ◌>>=◌, ◌>>◌, gets, database, modify, send_packet, set_object,
}
use tinymq_broker.Broker.Sessions.{register_session, register_in_database, enter_session}
use tinymq_broker.Broker.Registry.{client_of}
use tinymq_broker.Session.Handlers.{handle_connect, identify, send_ack, ack_payload}

-- CONN with a client id authenticates the session under that id, acknowledges it, and enters it into
-- the map of sessions, whatever the database answers; no other entry of the map changes.
pub handle_connect-registers :
    (h : Handle) (id other : Bytes) (w : World)
    → is_empty id ≡ false
    → let v = (handle_connect h id w).1 in
      ((handle_connect h id w).0 ≡ ok tt)
      × (client_of v h ≡ id)
      × ((v.objects h).is_authenticated ≡ true)
      × (v.wire ≡ w.wire ++ (h, make_packet PacketType.connack 0 []) ∷ [])
      × (lookup other v.sessions ≡ (if id == other then some h else lookup other w.sessions))
unfolding handle_connect identify send_ack ack_payload send_packet set_object register_session
    register_in_database enter_session ◌>>=◌ ◌>>◌ gets database modify
handle_connect-registers h id other w e = (
  ground (arith, nat_beq_iff h h),
  ground (arith, nat_beq_iff h h),
  ground (arith, nat_beq_iff h h),
  ground (arith, nat_beq_iff h h),
  ground (arith, nat_beq_iff h h, lookup-assign id other h w.sessions),
)

-- A session that connects again under another id stands in the map under its first id too.
pub second_connect_keeps_entry :
    (h : Handle) (first second : Bytes) (w : World)
    → is_empty second ≡ false
    → (second == first) ≡ false
    → lookup first w.sessions ≡ some h
    → let v = (handle_connect h second w).1 in
      (lookup first v.sessions ≡ some h)
      × (lookup second v.sessions ≡ some h)
      × (client_of v h ≡ second)
second_connect_keeps_entry h first second w e ne old =
    let a = handle_connect-registers h second first w e in
    let b = handle_connect-registers h second second w e in
    (a.4 ∙ rw ne old, b.4 ∙ rw (beq_self second) refl, a.1)
