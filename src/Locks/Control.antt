-- ===== src/Locks/Control.antt =====
-- The control messages that src/broker.cpp finds in published payloads, cut at their locks, and `publish`.
use tinymq_broker.Base.{
  Bytes, String, Bool, true, false, ◌&&◌, not, none, some, ◌==◌, nat_equality, bytes_equality,
  if◌then◌else◌, is_empty, codes, contains_text,
}
use tinymq_broker.Packet.Types.{PacketType}
use tinymq_broker.Packet.{make_packet}
use tinymq_broker.Db.Clients.{client_exists}
use tinymq_broker.Db.Topics.{topic_exists}
use tinymq_broker.Db.Subscriptions.{is_client_subscribed}
use tinymq_broker.Db.Admins.{
  revoke_admin_status, topic_has_admin, add_topic_admin, check_admin_request_status,
  respond_to_admin_request,
}
use tinymq_broker.Db.Sensors.{set_sensor_status}
use tinymq_broker.Broker.World.{Handle, Value, Json}
use tinymq_broker.Broker.Names.{extract_client_id}
use tinymq_broker.Broker.Notify.{
  self_request, already_pending, requester_not_found, owner_not_found, topic_not_found,
  not_subscribed, already_has_admin,
}
use tinymq_broker.Broker.Admin.{status_pending}
use tinymq_broker.Broker.Markers.{confirmation, command}
use tinymq_broker.Locks.Prog.{
  Prog, ret, returns, catches, ◌>>=◌, ◌>>◌, reads, calls, finds_session, sends,
}
use tinymq_broker.Locks.Notices.{
  sending_to_client, notifying_admin_request_error, notifying_admin_result,
  notifying_admin_revocation,
}
use tinymq_broker.Locks.Requests.{entering_request}
use tinymq_broker.Locks.Markers.{
  attempting, with_database, taking_sensor_activable, taking_publish_update, taking_topic_create,
  taking_sensors_sync, taking_topic_publish, finding_sensor_owner,
}
use tinymq_broker.Locks.Methods.{distributing}

module _ (json : Json) where
  -- A text that holds the marker is parsed; if the marker is a true member, `act` handles the
  -- message and `publish` returns. Otherwise the tests go on with `next`.
  unfoldable pub trying_marker : String → Bytes → (Value → Prog (Unit {0})) → Prog Bool → Prog Bool
  trying_marker marker message act next =
      if contains_text (codes marker) message
      then (do
        v ← returns (json.parse message)
        if v.contains marker
            then (do set ← returns (v.get_bool marker); if set then (do act v; ret true) else next)
            else next)
      else next

  -- The checks of this path, in its order; the owner is what the message says.
  unfoldable pub checking_published_topic : Handle → Bytes → Bytes → Bytes → Prog (Unit {0})
  checking_published_topic h requester topic owner = do
    exists ← calls (topic_exists topic)
    if not exists
        then notifying_admin_request_error json requester topic topic_not_found
            "El tópico no existe"
        else if owner == requester
        then notifying_admin_request_error json requester topic self_request
            "No puedes solicitar administración de tu propio tópico"
        else do
          subscribed ← calls (is_client_subscribed requester topic)
          if not subscribed
              then notifying_admin_request_error json requester topic not_subscribed
                  "Debes estar suscrito al tópico para solicitar administración"
              else do
                taken ← calls (topic_has_admin topic)
                if taken
                    then notifying_admin_request_error json requester topic already_has_admin
                        "El tópico ya tiene un administrador asignado"
                    else entering_request json h requester topic owner

  unfoldable pub checking_published_request : Handle → Bytes → Bytes → Bytes → Prog (Unit {0})
  checking_published_request h requester topic owner = do
    status ← calls (check_admin_request_status topic requester)
    if status_pending status
        then notifying_admin_request_error json requester topic already_pending
            "Ya tienes una solicitud pendiente para este tópico."
        else do
          known ← calls (client_exists requester)
          if not known
              then notifying_admin_request_error json requester topic requester_not_found
                  "El solicitante no existe en el sistema"
              else do
                owner_known ← calls (client_exists owner)
                if not owner_known
                    then notifying_admin_request_error json requester topic owner_not_found
                        "El propietario del tópico no existe"
                    else checking_published_topic h requester topic owner

  unfoldable pub taking_admin_request : Value → Prog (Unit {0})
  taking_admin_request v = do
    requester ← returns (v.get_string "client_id")
    topic ← returns (v.get_string "topic_name")
    owner ← returns (v.get_string "owner_id")
    found ← finds_session requester
    elim found [
      | none ↦ ret tt
      | some h ↦ with_database (checking_published_request h requester topic owner)
    ]

  -- An approval is followed by `add_topic_admin`, whose result is only logged.
  unfoldable pub answering_request : Bytes → Bytes → Bytes → Bool → Prog (Unit {0})
  answering_request owner topic requester approved = do
    done ← calls (respond_to_admin_request topic owner requester approved)
    if done
        then (do
          (if approved then attempting (add_topic_admin topic requester) else ret tt)
          notifying_admin_result json requester topic approved owner)
        else ret tt

  unfoldable pub taking_admin_response : Value → Prog (Unit {0})
  taking_admin_response v = do
    owner ← returns (v.get_string "client_id")
    topic ← returns (v.get_string "topic_name")
    requester ← returns (v.get_string "requester_id")
    approved ← returns (v.get_bool "approved")
    found ← finds_session owner
    elim found [
      | none ↦ ret tt
      | some h ↦ with_database (answering_request owner topic requester approved)
    ]

  unfoldable pub taking_admin_revoke : Value → Prog (Unit {0})
  taking_admin_revoke v = do
    owner ← returns (v.get_string "client_id")
    topic ← returns (v.get_string "topic_name")
    admin ← returns (v.get_string "admin_to_revoke")
    with_database (do
      done ← calls (revoke_admin_status topic owner admin)
      if done then notifying_admin_revocation json admin topic owner else ret tt)

  -- The sender gets a confirmation and the owner's device the command. The confirmation is dumped
  -- before the sender's session is looked for.
  unfoldable pub announcing_sensor : Bytes → Bytes → Bytes → Bool → Bytes → Prog (Unit {0})
  announcing_sensor client topic sensor active owner = do
    time ← reads (λ w. w.time)
    payload ← returns (json.dump (confirmation topic sensor active time))
    sender ← finds_session client
    (elim sender [
      | none ↦ ret tt
      | some h ↦ sends h (make_packet PacketType.sensor_status_resp 0 payload)
    ])
    if is_empty owner
        then ret tt
        else sending_to_client json owner PacketType.admin_notify 0 (command sensor active)

  unfoldable pub setting_sensor : Bytes → Bytes → Prog (Unit {0})
  setting_sensor published message = do
    v ← returns (json.parse message)
    topic ← returns (v.get_string "topic_name")
    sensor ← returns (v.get_string "sensor_name")
    active ← returns (v.get_bool "active")
    client ←
        (if v.contains "client_id"
          then returns (v.get_string "client_id")
          else ret (extract_client_id published))
    owner ← finding_sensor_owner topic
    with_database (do
      done ← calls (set_sensor_status topic sensor client active)
      if done then announcing_sensor client topic sensor active owner else ret tt)

  -- A command, unless it is one that the broker itself sent out.
  unfoldable pub taking_sensor_command : Bytes → Bytes → Prog Bool
  taking_sensor_command published message =
      if contains_text (codes "command") message && contains_text (codes "set_sensor") message
      then (if contains_text (codes "__is_internal_notification") message
          then ret true
          else (do setting_sensor published message; ret true))
      else ret false

  -- All tests, in the order of the code; `true` where `publish` returned.
  unfoldable pub controlling : Bytes → Bytes → Prog Bool
  controlling published message =
      trying_marker "__admin_sensor_activable" message taking_sensor_activable (
        trying_marker "__admin_request" message taking_admin_request (
          trying_marker "__admin_response" message taking_admin_response (
            trying_marker "__admin_revoke" message taking_admin_revoke (
              trying_marker "__topic_publish_update" message taking_publish_update (
                trying_marker "__topic_create" message taking_topic_create (
                  trying_marker "__topic_sensors_sync" message taking_sensors_sync (
                    trying_marker "__topic_publish" message (taking_topic_publish published)
                      (taking_sensor_command published message))))))))

  -- An exception in the control part is caught, and the message is then distributed.
  unfoldable pub publishing : Bytes → Bytes → Prog (Unit {0})
  publishing topic message = do
    handled ← catches false (controlling topic message)
    if handled then ret tt else distributing json topic message
