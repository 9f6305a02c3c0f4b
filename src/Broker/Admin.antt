-- ===== src/Broker/Admin.antt =====
-- The admin requests, answers and resignations of src/broker.cpp that come in packets of their own.
use tinymq_broker.Base.{
  ℕ, Bytes, String, Bool, true, false, not, [], ◌∷◌, ◌==◌, nat_equality, bytes_equality,
  if◌then◌else◌, is_empty,
}
use tinymq_broker.Packet.Types.{PacketType}
use tinymq_broker.Db.Clients.{client_exists}
use tinymq_broker.Db.Topics.{topic_exists}
use tinymq_broker.Db.Subscriptions.{is_client_subscribed}
use tinymq_broker.Db.Admins.{
  resign_admin_status, topic_has_admin, Answer, status_is, check_admin_request_status,
  request_admin_status, respond_to_admin_request, is_pending,
}
use tinymq_broker.Broker.World.{
  Handle, M, ◌>>=◌, ◌>>◌, pure, database, gets, text, literal, flag, number, Document, Json,
}
use tinymq_broker.Broker.Names.{extract_client_id}
use tinymq_broker.Broker.Notify.{
  self_request, already_pending, requester_not_found, owner_not_found, topic_not_found,
  not_subscribed, already_has_admin, database_error, send_document, notify_admin_request_error,
  notify_admin_result, notify_admin_resignation_to_owner, notify_admin_request,
}

-- `current_status == "pending"`.
unfoldable pub status_pending : Answer → Bool
status_pending (status_is s) = is_pending s
status_pending _ = false

abbrev pub success_document : Bytes → ℕ → Document
success_document topic time =
    ("__admin_request_success", flag true)
    ∷ ("topic_name", text topic)
    ∷ ("message", literal "Solicitud de administración enviada correctamente")
    ∷ ("timestamp", number time)
    ∷ []

abbrev pub resign_document : Bool → Bytes → String → Document
resign_document success topic message =
    ("success", flag success) ∷ ("topic_name", text topic) ∷ ("message", literal message) ∷ []

module _ (json : Json) where
  -- The request is stored, the owner notified, and the requester told.
  unfoldable pub enter_request : Handle → Bytes → Bytes → Bytes → M (Unit {0})
  enter_request h requester topic owner = do
    stored ← database (request_admin_status topic requester)
    if stored
        then (do
          notify_admin_request json owner topic requester
          time ← gets (λ w. w.time)
          send_document json h PacketType.admin_req_ack 0 (success_document topic time))
        else notify_admin_request_error json requester topic database_error
            "Error al registrar la solicitud en la base de datos"

  -- The checks after the one for an open request, in the order of the code.
  unfoldable pub check_topic : Handle → Bytes → Bytes → Bytes → M (Unit {0})
  check_topic h requester topic owner = do
    exists ← database (topic_exists topic)
    if not exists
        then notify_admin_request_error json requester topic topic_not_found "El tópico no existe"
        else do
          subscribed ← database (is_client_subscribed requester topic)
          if not subscribed
              then notify_admin_request_error json requester topic not_subscribed
                  "Debes estar suscrito al tópico para solicitar administración"
              else do
                taken ← database (topic_has_admin topic)
                if taken
                    then notify_admin_request_error json requester topic already_has_admin
                        "El tópico ya tiene un administrador asignado"
                    else enter_request h requester topic owner

  unfoldable pub check_clients : Handle → Bytes → Bytes → Bytes → M (Unit {0})
  check_clients h requester topic owner = do
    known ← database (client_exists requester)
    if not known
        then notify_admin_request_error json requester topic requester_not_found
            "El solicitante no existe en el sistema"
        else do
          owner_known ← database (client_exists owner)
          if not owner_known
              then notify_admin_request_error json requester topic owner_not_found
                  "El propietario del tópico no existe"
              else check_topic h requester topic owner

  unfoldable pub check_request : Handle → Bytes → Bytes → Bytes → M (Unit {0})
  check_request h requester topic owner =
      if is_empty owner
      then pure tt
      else if owner == requester
      then notify_admin_request_error json requester topic self_request
          "No puedes solicitar administración de tu propio tópico"
      else do
        status ← database (check_admin_request_status topic requester)
        if status_pending status
            then notify_admin_request_error json requester topic already_pending
                "Ya tienes una solicitud pendiente para este tópico. Espera la respuesta del propietario."
            else check_clients h requester topic owner

  unfoldable pub handle_admin_request : Handle → Bytes → M (Unit {0})
  handle_admin_request h topic = do
    db ← gets (λ w. w.has_database)
    if not db then pure tt else do
      requester ← gets (λ w. (w.objects h).client_id)
      check_request h requester topic (extract_client_id topic)

  unfoldable pub handle_admin_response : Handle → Bytes → Bytes → Bool → M (Unit {0})
  handle_admin_response h topic requester approved = do
    db ← gets (λ w. w.has_database)
    if not db then pure tt else do
      owner ← gets (λ w. (w.objects h).client_id)
      done ← database (respond_to_admin_request topic owner requester approved)
      if done then notify_admin_result json requester topic approved owner else pure tt

  unfoldable pub handle_admin_resignation : Handle → Bytes → M (Unit {0})
  handle_admin_resignation h topic = do
    db ← gets (λ w. w.has_database)
    if not db then pure tt else do
      admin ← gets (λ w. (w.objects h).client_id)
      done ← database (resign_admin_status topic admin)
      if done
          then (do
            send_document json h PacketType.admin_resign_ack 0 (
                resign_document true topic
                  "Has renunciado exitosamente a la administración de este tópico")
            if is_empty (extract_client_id topic)
                then pure tt
                else notify_admin_resignation_to_owner json (extract_client_id topic) topic admin)
          else send_document json h PacketType.admin_resign_ack 1 (
              resign_document false topic
                "No se pudo procesar la renuncia. Verifica que seas administrador de este tópico.")
