-- ===== src/Broker/Delivery.antt =====
-- What `publish` sends: one packet to each subscriber, for messages that are no control messages.
use tinymq_broker.Base.{
  ◌≡◌, ◌⊎◌, inl, inr, refl, ap, ◌∙◌, Bytes, Bool, true, false, ◌&&◌, not, none, some, List, [], ◌∷◌,
  ◌++◌, nat_equality, bytes_equality, if◌then◌else◌, is_empty, codes, Bool-cases, arith,
}
use mathlib.Core.List.{append_assoc, append-nil}
use tinymq_broker.Base.{String, contains_text}
use tinymq_broker.Packet.Types.{PacketType}
use tinymq_broker.Packet.{Packet, make_packet}
use tinymq_broker.Broker.World.{
  Handle, World, Result, ok, thrown, M, ◌>>=◌, ◌>>◌, pure, send_packet, send_each, Value, Json,
  catch_with, gets, database, modify,
}
use tinymq_broker.Broker.Names.{extract_client_id}
use tinymq_broker.Broker.Subscriptions.{subscribers_of}
use tinymq_broker.Broker.Notify.{wrapper}
use tinymq_broker.Broker.Control.{on_marker, on_sensor_command, set_sensor, control}
use tinymq_broker.Broker.Publish.{publish, distribute, deliver, log_published}
use tinymq_broker.Broker.Quiet.{Quiet, log_published-Quiet}

abbrev pub to_each : List Handle → Packet → List (Handle × Packet)
to_each [] p = []
to_each (h ∷ hs) p = (h, p) ∷ to_each hs p

send_each_lem :
    (hs : List Handle) (p : Packet) (w : World)
    → send_each hs p w ≡ (ok tt, record w { wire = w.wire ++ to_each hs p })
unfolding send_each send_packet ◌>>=◌ ◌>>◌ gets database modify
send_each_lem [] p w = rw (append-nil w.wire)
send_each_lem (h ∷ hs) p w =
    send_each_lem hs p (record w { wire = w.wire ++ (h, p) ∷ [] })
    ∙ rw (append_assoc w.wire ((h, p) ∷ []) (to_each hs p))

-- The outcome of a distribution, whatever the database did.
abbrev pub Sent : Result (Unit {0}) × World → World → Packet → List Handle → Type 0
Sent r w p subs =
    (r.0 ≡ ok tt)
    × (r.1.wire ≡ w.wire ++ to_each subs p)
    × (r.1.objects ≡ w.objects)
    × (r.1.sessions ≡ w.sessions)
    × (r.1.topic_subscribers ≡ w.topic_subscribers)

-- None of the texts by which the control part recognises a message stands in it.
abbrev pub IsPlain : Bytes → Type 0
IsPlain message =
    (contains_text (codes "__admin_sensor_activable") message ≡ false)
    × (contains_text (codes "__admin_request") message ≡ false)
    × (contains_text (codes "__admin_response") message ≡ false)
    × (contains_text (codes "__admin_revoke") message ≡ false)
    × (contains_text (codes "__topic_publish_update") message ≡ false)
    × (contains_text (codes "__topic_create") message ≡ false)
    × (contains_text (codes "__topic_sensors_sync") message ≡ false)
    × (contains_text (codes "__topic_publish") message ≡ false)
    × (contains_text (codes "command") message && contains_text (codes "set_sensor") message
        ≡ false)

-- Either the message is no JSON and is not marked as the broker's own, or it is plain.
abbrev pub IsOrdinary : Json → Bytes → Type 0
IsOrdinary json message =
    ((json.parse message ≡ none)
      × (contains_text (codes "__is_internal_notification") message ≡ false))
    ⊎ IsPlain message

module _ (json : Json) where
  -- Neither handled nor changed anything: the message goes on to the subscribers.
  abbrev Passes : M Bool → World → Type 0
  Passes m w = (m w ≡ (thrown, w)) ⊎ (m w ≡ (ok false, w))

  catch_with-Passes :
      (m : M Bool) (next : M (Unit {0})) (w : World)
      → Passes m w
      → (do handled ← catch_with false m; if handled then pure tt else next) w ≡ next w
  unfolding ◌>>=◌ ◌>>◌ gets database modify
  catch_with-Passes m next w (inl e) = ground arith
  catch_with-Passes m next w (inr e) = ground arith

  -- The message is no JSON.
  on_marker-Passes :
      (marker : String) (message : Bytes) (act : Value → M (Unit {0})) (next : M Bool) (w : World)
      → json.parse message ≡ none
      → Passes next w
      → Passes (on_marker json marker message act next) w
  unfolding on_marker ◌>>=◌ ◌>>◌ gets database modify
  on_marker-Passes marker message act next w e p =
      elim (Bool-cases (contains_text (codes marker) message)) [
        | inl found ↦ inl (ground arith)
        | inr missing ↦ rw (missing, on_marker) p
      ]

  on_sensor_command-Passes :
      (published message : Bytes) (w : World)
      → json.parse message ≡ none
      → contains_text (codes "__is_internal_notification") message ≡ false
      → Passes (on_sensor_command json published message) w
  unfolding on_sensor_command set_sensor ◌>>=◌ ◌>>◌ gets database modify
  on_sensor_command-Passes published message w e internal =
      elim (Bool-cases
        (contains_text (codes "command") message && contains_text (codes "set_sensor") message)) [
          | inl found ↦ inl (ground arith)
          | inr missing ↦ inr (ground arith)
        ]

  control-Passes :
      (published message : Bytes) (w : World)
      → json.parse message ≡ none
      → contains_text (codes "__is_internal_notification") message ≡ false
      → Passes (control json published message) w
  unfolding control
  control-Passes published message w e internal = on_marker-Passes _ message _ _ w e (
      on_marker-Passes _ message _ _ w e (
        on_marker-Passes _ message _ _ w e (
          on_marker-Passes _ message _ _ w e (
            on_marker-Passes _ message _ _ w e (
              on_marker-Passes _ message _ _ w e (
                on_marker-Passes _ message _ _ w e (
                  on_marker-Passes _ message _ _ w e
                    (on_sensor_command-Passes published message w e internal))))))))

  -- A message without the texts that the tests look for.
  plain-Passes :
      (published message : Bytes) (w : World)
      → IsPlain message
      → Passes (control json published message) w
  unfolding control on_marker on_sensor_command
  plain-Passes published message w (a, b, c, d, e, f, g, h, i) =
      inr (rw (a, b, c, d, e, f, g, h, i) refl)

  -- A message that is no JSON and does not hold the mark of the broker's own commands, or that holds
  -- none of the texts that the control part looks for, is distributed to the topic's subscribers.
  pub publish-IsOrdinary :
      (topic message : Bytes) (w : World)
      → IsOrdinary json message
      → publish json topic message w ≡ distribute json topic message w
  unfolding publish ◌>>=◌ ◌>>◌ gets database modify
  publish-IsOrdinary topic message w ordinary =
      catch_with-Passes (control json topic message) (distribute json topic message) w
        (elim ordinary [
          | inl (unparsed, internal) ↦ control-Passes topic message w unparsed internal
          | inr plain ↦ plain-Passes topic message w plain
        ])

  -- The log of the message, or nothing without a database or a named client.
  pub log_step-Quiet :
      (topic message : Bytes) (b : Bool)
      → Quiet (if b then log_published (extract_client_id topic) topic message else pure tt)
  log_step-Quiet topic message true w =
      log_published-Quiet (extract_client_id topic) topic message w
  log_step-Quiet topic message false w = ((tt, refl), (refl, refl, refl, refl))

  deliver_lem :
      (subs : List Handle) (topic message payload : Bytes) (w : World)
      → json.dump (wrapper topic message) ≡ some payload
      → deliver json subs topic message w ≡ (
        ok tt,
        record w { wire = w.wire ++ to_each subs (make_packet PacketType.pub_ 0 payload) },
      )
  unfolding deliver ◌>>=◌ ◌>>◌ gets database modify
  deliver_lem [] topic message payload w e = rw (append-nil w.wire) refl
  deliver_lem (h ∷ hs) topic message payload w e =
      rw e (send_each_lem (h ∷ hs) (make_packet PacketType.pub_ 0 payload) w)

  after-Quiet :
      (m : M (Unit {0})) (subs : List Handle) (topic message payload : Bytes) (w : World)
      → Quiet m
      → json.dump (wrapper topic message) ≡ some payload
      → Sent
          ((m >> deliver json subs topic message) w)
          w
          (make_packet PacketType.pub_ 0 payload)
          subs
  unfolding ◌>>=◌ ◌>>◌ gets database modify
  after-Quiet m subs topic message payload w quiet e =
      let q = quiet w in
      rw (q.0.1, deliver_lem subs topic message payload (m w).1 e)
        (
          refl,
          ap (λ x. x ++ to_each subs (make_packet PacketType.pub_ 0 payload)) q.1.3,
          q.1.0,
          q.1.1,
          q.1.2,
        )

  distribute-Sent :
      (topic message payload : Bytes) (w : World)
      → json.dump (wrapper topic message) ≡ some payload
      → Sent
          (distribute json topic message w)
          w
          (make_packet PacketType.pub_ 0 payload)
          (subscribers_of topic w.topic_subscribers)
  unfolding distribute ◌>>=◌ ◌>>◌ gets database modify
  distribute-Sent topic message payload w =
      after-Quiet
        (if w.has_database && not (is_empty (extract_client_id topic))
          then log_published (extract_client_id topic) topic message
          else pure tt)
        (subscribers_of topic w.topic_subscribers) topic message payload w
        (log_step-Quiet topic message (w.has_database && not (is_empty (extract_client_id topic))))

  -- An ordinary message (`IsOrdinary`) is sent to each entry of the topic's list of subscribers, in
  -- the list's order, as one PUB packet with the wrapped message, if that can be dumped. The call
  -- returns, and leaves session objects, the map of sessions and the subscriptions as they were,
  -- whatever becomes of the log in the database.
  pub publish-Sent :
      (topic message payload : Bytes) (w : World)
      → IsOrdinary json message
      → json.dump (wrapper topic message) ≡ some payload
      → Sent
          (publish json topic message w)
          w
          (make_packet PacketType.pub_ 0 payload)
          (subscribers_of topic w.topic_subscribers)
  publish-Sent topic message payload w ordinary e =
      rw (publish-IsOrdinary topic message w ordinary) (distribute-Sent topic message payload w e)
