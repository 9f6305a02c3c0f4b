-- ===== src/Session/Guards.antt =====
-- What a session may do before it has identified itself.
use tinymq_broker.Base.{◌≡◌, ◌≢◌, false, arith}
use tinymq_broker.Packet.Types.{PacketType}
use tinymq_broker.Packet.{Packet}
use tinymq_broker.Db.Listings.{Rendering}
use tinymq_broker.Broker.World.{Handle, World, ok, Json, ◌>>=◌, ◌>>◌, gets, database, modify}
use tinymq_broker.Session.Handlers.{
  when_authenticated, process_packet, handle_subscribe, handle_unsubscribe, handle_publish,
  on_admin_response,
}

module _ (json : Json) (r : Rendering) where
  -- A session that is not authenticated changes nothing with any packet but CONN: the whole world
  -- is as before, the database and the packets sent included, and the handler returns.
  pub unauthenticated_ignored :
      (h : Handle) (p : Packet) (w : World)
      → (w.objects h).is_authenticated ≡ false
      → p.packet_type ≢ PacketType.conn
      → process_packet json r h p w ≡ (ok tt, w)
  unfolding process_packet when_authenticated handle_subscribe handle_unsubscribe handle_publish
      on_admin_response ◌>>=◌ ◌>>◌ gets database modify
  unauthenticated_ignored h p w e ne = ground arith
