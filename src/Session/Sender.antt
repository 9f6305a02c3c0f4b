-- ===== src/Session/Sender.antt =====
-- What the handler of PUB in src/session.cpp makes of a control message of one client in the name of
-- another.
use tinymq_broker.Base.{◌<◌, ◌≡◌, refl, true, Bytes, Bool, ◌∷◌, [], ◌++◌, length}
use tinymq_broker.Packet.Types.{PacketType}
use tinymq_broker.Packet.{make_packet}
use tinymq_broker.Db.Listings.{Rendering}
use tinymq_broker.Broker.World.{Handle, World, ok, Json, Value, ◌>>=◌, ◌>>◌, gets, send_packet}
use tinymq_broker.Broker.Sensors.{sends_more, IsCommand, after_command, sensor_command-sent}
use tinymq_broker.Session.Handlers.{when_authenticated, handle_publish, send_ack, ack_payload}
use tinymq_broker.Session.Payloads.{parse_publish-format}

module _ (json : Json) (r : Rendering) where
  -- A PUB packet of any authenticated session, with a sensor command (`IsCommand`) that names some
  -- client, whoever that is, sets the sensor if that client administers the topic, not the sender: the
  -- database, the confirmation to the client that is named and the command to the owner are as
  -- set_sensor_status for that client makes them, and the sender gets a PUBACK after that.
  pub sender_impersonates :
      (h : Handle) (published message topic sensor client confirm cmd : Bytes) (active : Bool)
      (v : Value) (w : World)
      → (w.objects h).is_authenticated ≡ true
      → 0 < length message
      → IsCommand json message topic sensor client confirm cmd active v w
      → handle_publish json r h (length published ∷ published ++ message) w ≡ (
        ok tt,
        sends_more
            (after_command json topic sensor client confirm cmd active w)
            ((h, make_packet PacketType.puback 0 []) ∷ []),
      )
  unfolding handle_publish when_authenticated send_ack ack_payload send_packet ◌>>=◌ ◌>>◌ gets
  sender_impersonates h published message topic sensor client confirm cmd active v w a n i =
      rw
        (
          a,
          parse_publish-format published message n,
          sensor_command-sent json published message topic sensor client confirm cmd active v w i,
        )
        refl
