-- ===== src/Broker/Sensors.antt =====
-- The sensor command of `publish` in src/broker.cpp: what is stored, and who is told.
use mathlib.Core.List.{append_assoc, append-nil}
use tinymq_broker.Base.{
  ℕ, ◌≡◌, refl, ap, ◌∙◌, inl, inr, Bool-cases, arith, Bytes, Bool, true, false, ◌&&◌, Option, none,
  some, List, [], ◌∷◌, ◌++◌, if◌then◌else◌, is_empty, contains_text, codes, lookup, bytes_equality,
}
use tinymq_broker.Packet.Types.{PacketType}
use tinymq_broker.Packet.{Packet, make_packet}
use tinymq_broker.Db.Tables.{Server}
use tinymq_broker.Db.Topics.{get_topic_owner}
use tinymq_broker.Db.Sensors.{set_sensor_status}
use tinymq_broker.Broker.Publish.{publish, distribute}
use tinymq_broker.Broker.World.{
  Handle, World, M, Result, ok, Json, Value, ◌>>=◌, ◌>>◌, pure, gets, database, send_packet,
  catch_with, Document,
}
use tinymq_broker.Broker.Names.{extract_client_id}
use tinymq_broker.Broker.Notify.{send_document, send_to_client}
use tinymq_broker.Broker.Markers.{confirmation, command, sensor_owner}
use tinymq_broker.Broker.Control.{
  on_marker, control, announce_sensor, set_sensor, on_sensor_command,
}

-- What is sent to a client that may be connected.
abbrev pub to_client : Option Handle → Packet → List (Handle × Packet)
to_client none p = []
to_client (some h) p = (h, p) ∷ []

-- The packets of a command that was stored or refused.
abbrev pub told : Bool → Option Handle → Option Handle → Bytes → Bytes → List (Handle × Packet)
told false sender owner confirm cmd = []
told true sender owner confirm cmd =
    to_client sender (make_packet PacketType.sensor_status_resp 0 confirm)
    ++ to_client owner (make_packet PacketType.admin_notify 0 cmd)

-- The device of the owner, if one is known and connected.
abbrev pub device : Bytes → World → Option Handle
device owner w = if is_empty owner then none else lookup owner w.sessions

-- None of the markers that `publish` looks for before a sensor command.
abbrev pub IsUnmarked : Bytes → Type 0
IsUnmarked message =
    (contains_text (codes "__admin_sensor_activable") message ≡ false)
    × (contains_text (codes "__admin_request") message ≡ false)
    × (contains_text (codes "__admin_response") message ≡ false)
    × (contains_text (codes "__admin_revoke") message ≡ false)
    × (contains_text (codes "__topic_publish_update") message ≡ false)
    × (contains_text (codes "__topic_create") message ≡ false)
    × (contains_text (codes "__topic_sensors_sync") message ≡ false)
    × (contains_text (codes "__topic_publish") message ≡ false)

abbrev pub sends_more : World → List (Handle × Packet) → World
sends_more w sent = record w { wire = w.wire ++ sent }

abbrev answered : World → Result (Unit {0}) × World
answered w = (ok tt, w)

module _ (json : Json) where
  send_to_client-sent :
      (id payload : Bytes) (t : PacketType) (flags : ℕ) (d : Document) (w : World)
      → json.dump d ≡ some payload
      → (found : Option Handle) → lookup id w.sessions ≡ found
      → send_to_client json id t flags d w
        ≡ (ok tt, sends_more w (to_client found (make_packet t flags payload)))
  unfolding send_to_client send_document ◌>>=◌ gets send_packet
  send_to_client-sent id payload t flags d w e none f = ground (arith, append-nil w.wire)
  send_to_client-sent id payload t flags d w e (some h) f = ground arith

  announce_sensor-sent :
      (client topic sensor owner confirm cmd : Bytes) (active : Bool) (w : World)
      → json.dump (confirmation topic sensor active w.time) ≡ some confirm
      → json.dump (command sensor active) ≡ some cmd
      → (sender : Option Handle) → lookup client w.sessions ≡ sender
      → announce_sensor json client topic sensor active owner w ≡ (
        ok tt,
        sends_more w (
            to_client sender (make_packet PacketType.sensor_status_resp 0 confirm)
            ++ to_client (device owner w) (make_packet PacketType.admin_notify 0 cmd)),
      )
  unfolding announce_sensor ◌>>=◌ ◌>>◌ gets send_packet
  announce_sensor-sent client topic sensor owner confirm cmd active w c d none f =
      elim (Bool-cases (is_empty owner)) [
        | inl o ↦ rw (c, f, o) (ground (arith, append-nil w.wire))
        | inr o ↦
            rw (c, f, o) (send_to_client-sent owner cmd PacketType.admin_notify 0 _ w d _ refl)
      ]
  announce_sensor-sent client topic sensor owner confirm cmd active w c d (some h) f =
      let p : Handle × Packet = (h, make_packet PacketType.sensor_status_resp 0 confirm) in
      elim (Bool-cases (is_empty owner)) [
        | inl o ↦ rw (c, f, o) refl
        | inr o ↦
            rw (c, f, o)
              (send_to_client-sent owner cmd PacketType.admin_notify 0 _ (sends_more w (p ∷ [])) d _
                  refl
                ∙ ap (λ (l : List (Handle × Packet)). answered (record w { wire = l }))
                    (append_assoc w.wire (p ∷ []) _))
      ]

  -- What is left once the command is read.
  abbrev store_and_announce : Bytes → Bytes → Bytes → Bool → Bytes → M (Unit {0})
  store_and_announce client topic sensor active owner = do
    done ← database (set_sensor_status topic sensor client active)
    if done then announce_sensor json client topic sensor active owner else pure tt

  -- The world after a command is stored by `s` and its answer is told.
  abbrev pub commanded : World → Bool × Server → Bytes → Bytes → Bytes → Bytes → World
  commanded w s client owner confirm cmd = record w {
    server = s.1;
    wire = w.wire ++ told s.0 (lookup client w.sessions) (device owner w) confirm cmd;
  }

  store_and_announce-sent :
      (client topic sensor owner confirm cmd : Bytes) (active : Bool) (w : World)
      → json.dump (confirmation topic sensor active w.time) ≡ some confirm
      → json.dump (command sensor active) ≡ some cmd
      → store_and_announce client topic sensor active owner w ≡ (
        ok tt,
        commanded w
            (set_sensor_status topic sensor client active w.server)
            client
            owner
            confirm
            cmd,
      )
  unfolding ◌>>=◌ database
  store_and_announce-sent client topic sensor owner confirm cmd active w c d =
      elim (Bool-cases (set_sensor_status topic sensor client active w.server).0) [
        | inl e ↦ rw e (
            announce_sensor-sent client topic sensor owner confirm cmd active
              (record w { server = (set_sensor_status topic sensor client active w.server).1 }) c d
              _ refl)
        | inr e ↦ rw e (ground (arith, append-nil w.wire))
      ]

  -- A message that is a sensor command and nothing else, can be read, and meets a database; the two
  -- documents that it makes can be dumped.
  pub record IsCommand (message topic sensor client confirm cmd : Bytes) (active : Bool) (v : Value)
      (w : World) : Type 0 where
    pub unmarked : IsUnmarked message
    pub marked :
        contains_text (codes "command") message && contains_text (codes "set_sensor") message ≡ true
    pub external : contains_text (codes "__is_internal_notification") message ≡ false
    pub parsed : json.parse message ≡ some v
    pub names_topic : v.get_string "topic_name" ≡ some topic
    pub names_sensor : v.get_string "sensor_name" ≡ some sensor
    pub sets : v.get_bool "active" ≡ some active
    pub has_client : v.contains "client_id" ≡ true
    pub names_client : v.get_string "client_id" ≡ some client
    pub with_database : w.has_database ≡ true
    pub confirms : json.dump (confirmation topic sensor active w.time) ≡ some confirm
    pub commands : json.dump (command sensor active) ≡ some cmd

  -- The owner in the name of the topic, or else the one that the database knows.
  abbrev pub owner_of : Bytes → World → Bytes × Server
  owner_of topic w =
      if is_empty (extract_client_id topic)
      then get_topic_owner topic w.server
      else (extract_client_id topic, w.server)

  -- The world after `publish` of the command.
  abbrev pub after_command : Bytes → Bytes → Bytes → Bytes → Bytes → Bool → World → World
  after_command topic sensor client confirm cmd active w =
      let o = owner_of topic w in
      commanded w (set_sensor_status topic sensor client active o.1) client o.0 confirm cmd

  on_sensor_command-sent :
      (published message topic sensor client confirm cmd : Bytes) (active : Bool) (v : Value)
      (w : World)
      → IsCommand message topic sensor client confirm cmd active v w
      → on_sensor_command json published message w
        ≡ (ok true, after_command topic sensor client confirm cmd active w)
  unfolding on_sensor_command set_sensor sensor_owner ◌>>=◌ ◌>>◌ gets database
  on_sensor_command-sent published message topic sensor client confirm cmd active v w i =
      elim (Bool-cases (is_empty (extract_client_id topic))) [
        | inl o ↦ ground (
          arith,
          o,
          i.marked,
          i.external,
          i.parsed,
          i.names_topic,
          i.names_sensor,
          i.sets,
          i.has_client,
          i.names_client,
          i.with_database,
          store_and_announce-sent client topic sensor (get_topic_owner topic w.server).0 confirm cmd
              active (record w { server = (get_topic_owner topic w.server).1 }) i.confirms
              i.commands,
        )
        | inr o ↦ ground (
          arith,
          o,
          i.marked,
          i.external,
          i.parsed,
          i.names_topic,
          i.names_sensor,
          i.sets,
          i.has_client,
          i.names_client,
          i.with_database,
          store_and_announce-sent client topic sensor (extract_client_id topic) confirm cmd active w
              i.confirms i.commands,
        )
      ]

  control-unmarked :
      (published message : Bytes) (w : World)
      → IsUnmarked message
      → control json published message w ≡ on_sensor_command json published message w
  unfolding control on_marker
  control-unmarked published message w (a, b, c, d, e, f, g, h) = rw (a, b, c, d, e, f, g, h) refl

  handled-returns :
      (m : M Bool) (next : M (Unit {0})) (w v : World)
      → m w ≡ (ok true, v)
      → (do handled ← catch_with false m; if handled then pure tt else next) w ≡ (ok tt, v)
  unfolding ◌>>=◌
  handled-returns m next w v e = ground arith

  publish-handled :
      (published message : Bytes) (w v : World)
      → control json published message w ≡ (ok true, v)
      → publish json published message w ≡ (ok tt, v)
  unfolding publish
  publish-handled published message w v e =
      handled-returns (control json published message) (distribute json published message) w v e

  -- A published message that is a sensor command (`IsCommand`), on any topic: `publish` handles it and
  -- distributes nothing. The owner is the one in the name of the topic, or else the one that
  -- get_topic_owner finds. The database is as set_sensor_status leaves it after that. If that succeeded,
  -- the client that the command names is sent the confirmation and then the owner the command, each if
  -- it is connected, and nobody anything else; and if it refused, nobody is sent anything.
  pub sensor_command-sent :
      (published message topic sensor client confirm cmd : Bytes) (active : Bool) (v : Value)
      (w : World)
      → IsCommand message topic sensor client confirm cmd active v w
      → publish json published message w
        ≡ (ok tt, after_command topic sensor client confirm cmd active w)
  sensor_command-sent published message topic sensor client confirm cmd active v w i =
      publish-handled published message w _ (
        control-unmarked published message w i.unmarked
        ∙ on_sensor_command-sent published message topic sensor client confirm cmd active v w i)
