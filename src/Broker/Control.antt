-- ===== src/Broker/Control.antt =====
-- The control messages that src/broker.cpp finds in published payloads: the `try` block of `publish`.
use tinymq_broker.Base.{
  Bytes, String, Bool, true, false, ◌&&◌, not, none, some, ◌==◌, nat_equality, bytes_equality,
  if◌then◌else◌, is_empty, codes, contains_text,
}
use tinymq_broker.Packet.Types.{PacketType}
use tinymq_broker.Packet.{make_packet}
use tinymq_broker.Db.Clients.{client_exists}
use tinymq_broker.Db.Topics.{topic_exists}
use tinymq_broker.Db.Subscriptions.{is_client_subscribed}
use tinymq_broker.Db.Admins.{
  revoke_admin_status, topic_has_admin, add_topic_admin, check_admin_request_status,
  respond_to_admin_request,
}
use tinymq_broker.Db.Sensors.{set_sensor_status}
use tinymq_broker.Broker.World.{
  Handle, M, ◌>>=◌, ◌>>◌, pure, or_throw, database, gets, send_packet, find_session, Value, Json,
}
use tinymq_broker.Broker.Names.{extract_client_id}
use tinymq_broker.Broker.Notify.{
  self_request, already_pending, requester_not_found, owner_not_found, topic_not_found,
  not_subscribed, already_has_admin, send_to_client, notify_admin_request_error,
  notify_admin_result, notify_admin_revocation,
}
use tinymq_broker.Broker.Admin.{status_pending, enter_request}
use tinymq_broker.Broker.Markers.{
  attempt, if_database, on_sensor_activable, on_publish_update, on_topic_create, on_sensors_sync,
  on_topic_publish, confirmation, command, sensor_owner,
}

module _ (json : Json) where
  -- A text that holds the marker is parsed; if the marker is a true member, `act` handles the
  -- message and `publish` returns. Otherwise the tests go on with `next`.
  unfoldable pub on_marker : String → Bytes → (Value → M (Unit {0})) → M Bool → M Bool
  on_marker marker message act next =
      if contains_text (codes marker) message
      then (do
        v ← or_throw (json.parse message)
        if v.contains marker
            then (do
              set ← or_throw (v.get_bool marker)
              if set then (do act v; pure true) else next)
            else next)
      else next

  -- The checks of this path, in its order; the owner is what the message says.
  unfoldable pub check_published_topic : Handle → Bytes → Bytes → Bytes → M (Unit {0})
  check_published_topic h requester topic owner = do
    exists ← database (topic_exists topic)
    if not exists
        then notify_admin_request_error json requester topic topic_not_found "El tópico no existe"
        else if owner == requester
        then notify_admin_request_error json requester topic self_request
            "No puedes solicitar administración de tu propio tópico"
        else do
          subscribed ← database (is_client_subscribed requester topic)
          if not subscribed
              then notify_admin_request_error json requester topic not_subscribed
                  "Debes estar suscrito al tópico para solicitar administración"
              else do
                taken ← database (topic_has_admin topic)
                if taken
                    then notify_admin_request_error json requester topic already_has_admin
                        "El tópico ya tiene un administrador asignado"
                    else enter_request json h requester topic owner

  unfoldable pub check_published_request : Handle → Bytes → Bytes → Bytes → M (Unit {0})
  check_published_request h requester topic owner = do
    status ← database (check_admin_request_status topic requester)
    if status_pending status
        then notify_admin_request_error json requester topic already_pending
            "Ya tienes una solicitud pendiente para este tópico."
        else do
          known ← database (client_exists requester)
          if not known
              then notify_admin_request_error json requester topic requester_not_found
                  "El solicitante no existe en el sistema"
              else do
                owner_known ← database (client_exists owner)
                if not owner_known
                    then notify_admin_request_error json requester topic owner_not_found
                        "El propietario del tópico no existe"
                    else check_published_topic h requester topic owner

  unfoldable pub on_admin_request : Value → M (Unit {0})
  on_admin_request v = do
    requester ← or_throw (v.get_string "client_id")
    topic ← or_throw (v.get_string "topic_name")
    owner ← or_throw (v.get_string "owner_id")
    found ← find_session requester
    elim found [
      | none ↦ pure tt
      | some h ↦ if_database (check_published_request h requester topic owner)
    ]

  -- An approval is followed by `add_topic_admin`, whose result is only logged.
  unfoldable pub answer_request : Bytes → Bytes → Bytes → Bool → M (Unit {0})
  answer_request owner topic requester approved = do
    done ← database (respond_to_admin_request topic owner requester approved)
    if done
        then (do
          (if approved then attempt (add_topic_admin topic requester) else pure tt)
          notify_admin_result json requester topic approved owner)
        else pure tt

  unfoldable pub on_admin_response : Value → M (Unit {0})
  on_admin_response v = do
    owner ← or_throw (v.get_string "client_id")
    topic ← or_throw (v.get_string "topic_name")
    requester ← or_throw (v.get_string "requester_id")
    approved ← or_throw (v.get_bool "approved")
    found ← find_session owner
    elim found [
      | none ↦ pure tt
      | some h ↦ if_database (answer_request owner topic requester approved)
    ]

  unfoldable pub on_admin_revoke : Value → M (Unit {0})
  on_admin_revoke v = do
    owner ← or_throw (v.get_string "client_id")
    topic ← or_throw (v.get_string "topic_name")
    admin ← or_throw (v.get_string "admin_to_revoke")
    if_database (do
      done ← database (revoke_admin_status topic owner admin)
      if done then notify_admin_revocation json admin topic owner else pure tt)

  -- The sender gets a confirmation and the owner's device the command. The confirmation is dumped
  -- before the sender's session is looked for.
  unfoldable pub announce_sensor : Bytes → Bytes → Bytes → Bool → Bytes → M (Unit {0})
  announce_sensor client topic sensor active owner = do
    time ← gets (λ w. w.time)
    payload ← or_throw (json.dump (confirmation topic sensor active time))
    sender ← find_session client
    (elim sender [
      | none ↦ pure tt
      | some h ↦ send_packet h (make_packet PacketType.sensor_status_resp 0 payload)
    ])
    if is_empty owner
        then pure tt
        else send_to_client json owner PacketType.admin_notify 0 (command sensor active)

  unfoldable pub set_sensor : Bytes → Bytes → M (Unit {0})
  set_sensor published message = do
    v ← or_throw (json.parse message)
    topic ← or_throw (v.get_string "topic_name")
    sensor ← or_throw (v.get_string "sensor_name")
    active ← or_throw (v.get_bool "active")
    client ←
        (if v.contains "client_id"
          then or_throw (v.get_string "client_id")
          else pure (extract_client_id published))
    owner ← sensor_owner topic
    if_database (do
      done ← database (set_sensor_status topic sensor client active)
      if done then announce_sensor client topic sensor active owner else pure tt)

  -- A command, unless it is one that the broker itself sent out.
  unfoldable pub on_sensor_command : Bytes → Bytes → M Bool
  on_sensor_command published message =
      if contains_text (codes "command") message && contains_text (codes "set_sensor") message
      then (if contains_text (codes "__is_internal_notification") message
          then pure true
          else (do set_sensor published message; pure true))
      else pure false

  -- All tests, in the order of the code; `true` where `publish` returned.
  unfoldable pub control : Bytes → Bytes → M Bool
  control published message = on_marker "__admin_sensor_activable" message on_sensor_activable (
      on_marker "__admin_request" message on_admin_request (
        on_marker "__admin_response" message on_admin_response (
          on_marker "__admin_revoke" message on_admin_revoke (
            on_marker "__topic_publish_update" message on_publish_update (
              on_marker "__topic_create" message on_topic_create (
                on_marker "__topic_sensors_sync" message on_sensors_sync (
                  on_marker "__topic_publish" message (on_topic_publish published)
                    (on_sensor_command published message))))))))
