-- ===== src/Locks/Requests.antt =====
-- The admin requests, answers and resignations of src/broker.cpp, cut at their locks.
use tinymq_broker.Base.{
  Bytes, Bool, true, false, not, ◌==◌, nat_equality, bytes_equality, if◌then◌else◌, is_empty,
}
use tinymq_broker.Packet.Types.{PacketType}
use tinymq_broker.Db.Clients.{client_exists}
use tinymq_broker.Db.Topics.{topic_exists}
use tinymq_broker.Db.Subscriptions.{is_client_subscribed}
use tinymq_broker.Db.Admins.{
  resign_admin_status, topic_has_admin, check_admin_request_status, request_admin_status,
  respond_to_admin_request,
}
use tinymq_broker.Broker.World.{Handle, Json}
use tinymq_broker.Broker.Names.{extract_client_id}
use tinymq_broker.Broker.Notify.{
  self_request, already_pending, requester_not_found, owner_not_found, topic_not_found,
  not_subscribed, already_has_admin, database_error,
}
use tinymq_broker.Broker.Admin.{status_pending, success_document, resign_document}
use tinymq_broker.Locks.Prog.{Prog, ret, ◌>>=◌, ◌>>◌, reads, calls}
use tinymq_broker.Locks.Notices.{
  sending_document, notifying_admin_request_error, notifying_admin_result,
  notifying_admin_resignation_to_owner, notifying_admin_request,
}

module _ (json : Json) where
  -- The request is stored, the owner notified, and the requester told.
  unfoldable pub entering_request : Handle → Bytes → Bytes → Bytes → Prog (Unit {0})
  entering_request h requester topic owner = do
    stored ← calls (request_admin_status topic requester)
    if stored
        then (do
          notifying_admin_request json owner topic requester
          time ← reads (λ w. w.time)
          sending_document json h PacketType.admin_req_ack 0 (success_document topic time))
        else notifying_admin_request_error json requester topic database_error
            "Error al registrar la solicitud en la base de datos"

  -- The checks after the one for an open request, in the order of the code.
  unfoldable pub checking_topic : Handle → Bytes → Bytes → Bytes → Prog (Unit {0})
  checking_topic h requester topic owner = do
    exists ← calls (topic_exists topic)
    if not exists
        then notifying_admin_request_error json requester topic topic_not_found
            "El tópico no existe"
        else do
          subscribed ← calls (is_client_subscribed requester topic)
          if not subscribed
              then notifying_admin_request_error json requester topic not_subscribed
                  "Debes estar suscrito al tópico para solicitar administración"
              else do
                taken ← calls (topic_has_admin topic)
                if taken
                    then notifying_admin_request_error json requester topic already_has_admin
                        "El tópico ya tiene un administrador asignado"
                    else entering_request h requester topic owner

  unfoldable pub checking_clients : Handle → Bytes → Bytes → Bytes → Prog (Unit {0})
  checking_clients h requester topic owner = do
    known ← calls (client_exists requester)
    if not known
        then notifying_admin_request_error json requester topic requester_not_found
            "El solicitante no existe en el sistema"
        else do
          owner_known ← calls (client_exists owner)
          if not owner_known
              then notifying_admin_request_error json requester topic owner_not_found
                  "El propietario del tópico no existe"
              else checking_topic h requester topic owner

  unfoldable pub checking_request : Handle → Bytes → Bytes → Bytes → Prog (Unit {0})
  checking_request h requester topic owner =
      if is_empty owner
      then ret tt
      else if owner == requester
      then notifying_admin_request_error json requester topic self_request
          "No puedes solicitar administración de tu propio tópico"
      else do
        status ← calls (check_admin_request_status topic requester)
        if status_pending status
            then notifying_admin_request_error json requester topic already_pending
                "Ya tienes una solicitud pendiente para este tópico. Espera la respuesta del propietario."
            else checking_clients h requester topic owner

  unfoldable pub handling_admin_request : Handle → Bytes → Prog (Unit {0})
  handling_admin_request h topic = do
    db ← reads (λ w. w.has_database)
    if not db then ret tt else do
      requester ← reads (λ w. (w.objects h).client_id)
      checking_request h requester topic (extract_client_id topic)

  unfoldable pub handling_admin_response : Handle → Bytes → Bytes → Bool → Prog (Unit {0})
  handling_admin_response h topic requester approved = do
    db ← reads (λ w. w.has_database)
    if not db then ret tt else do
      owner ← reads (λ w. (w.objects h).client_id)
      done ← calls (respond_to_admin_request topic owner requester approved)
      if done then notifying_admin_result json requester topic approved owner else ret tt

  unfoldable pub handling_admin_resignation : Handle → Bytes → Prog (Unit {0})
  handling_admin_resignation h topic = do
    db ← reads (λ w. w.has_database)
    if not db then ret tt else do
      admin ← reads (λ w. (w.objects h).client_id)
      done ← calls (resign_admin_status topic admin)
      if done
          then (do
            sending_document json h PacketType.admin_resign_ack 0 (
                resign_document true topic
                  "Has renunciado exitosamente a la administración de este tópico")
            if is_empty (extract_client_id topic)
                then ret tt
                else notifying_admin_resignation_to_owner json (extract_client_id topic) topic
                    admin)
          else sending_document json h PacketType.admin_resign_ack 1 (
              resign_document false topic
                "No se pudo procesar la renuncia. Verifica que seas administrador de este tópico.")
