-- ===== src/Broker/Notify.antt =====
-- The notifications of src/broker.cpp, to one client or to the subscribers of a topic.
use tinymq_broker.Base.{
  ℕ, Bytes, String, Bool, true, none, some, List, [], ◌∷◌, ◌++◌, nat_equality, bytes_equality,
  if◌then◌else◌, is_empty, codes,
}
use tinymq_broker.Packet.Types.{PacketType}
use tinymq_broker.Packet.{make_packet}
use tinymq_broker.Broker.World.{
  Handle, M, ◌>>=◌, pure, or_throw, catch_with, gets, send_packet, send_each, find_session, text,
  literal, flag, number, Document, Json,
}
use tinymq_broker.Broker.Subscriptions.{subscribers_of}

-- The error codes of admin requests, with the texts that the client is sent.
pub data ErrorCode : Type 0 where
  self_request already_pending requester_not_found owner_not_found : ErrorCode
  topic_not_found not_subscribed already_has_admin database_error : ErrorCode

unfoldable pub error_text : ErrorCode → String
error_text self_request = "SELF_REQUEST"
error_text already_pending = "ALREADY_PENDING"
error_text requester_not_found = "REQUESTER_NOT_FOUND"
error_text owner_not_found = "OWNER_NOT_FOUND"
error_text topic_not_found = "TOPIC_NOT_FOUND"
error_text not_subscribed = "NOT_SUBSCRIBED"
error_text already_has_admin = "ALREADY_HAS_ADMIN"
error_text database_error = "DATABASE_ERROR"

abbrev pub error_document : Bytes → ErrorCode → String → ℕ → Document
error_document topic code message time =
    ("__admin_request_error", flag true)
    ∷ ("topic_name", text topic)
    ∷ ("error_code", literal (error_text code))
    ∷ ("error_message", literal message)
    ∷ ("timestamp", number time)
    ∷ []

abbrev pub result_document : Bytes → Bool → Bytes → ℕ → Document
result_document topic approved owner time =
    ("__admin_result", flag true)
    ∷ ("topic_name", text topic)
    ∷ ("approved", flag approved)
    ∷ ("owner_id", text owner)
    ∷ ("timestamp", number time)
    ∷ []

abbrev pub revocation_document : Bytes → Bytes → Bytes → ℕ → Document
revocation_document admin topic owner time =
    ("__admin_revoked", flag true)
    ∷ ("topic_name", text topic)
    ∷ ("owner_id", text owner)
    ∷ ("revoked_admin", text admin)
    ∷ ("timestamp", number time)
    ∷ []

abbrev pub resignation_document : Bytes → Bytes → ℕ → Document
resignation_document topic admin time =
    ("__admin_resignation", flag true)
    ∷ ("topic_name", text topic)
    ∷ ("resigned_admin", text admin)
    ∷ ("timestamp", number time)
    ∷ []

abbrev pub notification_document : Bytes → Bytes → ℕ → Document
notification_document topic requester time =
    ("__admin_notification", flag true)
    ∷ ("type", literal "request")
    ∷ ("requester_id", text requester)
    ∷ ("topic_name", text topic)
    ∷ ("timestamp", number time)
    ∷ []

-- `{"topic": ..., "message": ...}`, in which published messages travel.
abbrev pub wrapper : Bytes → Bytes → Document
wrapper topic message = ("topic", text topic) ∷ ("message", text message) ∷ []

module _ (json : Json) where
  -- `dump`, the packet, and `send_packet`.
  unfoldable pub send_document : Handle → PacketType → ℕ → Document → M (Unit {0})
  send_document h t flags document = do
    payload ← or_throw (json.dump document)
    send_packet h (make_packet t flags payload)

  unfoldable pub send_documents : Handle → PacketType → List Document → M (Unit {0})
  send_documents h t documents = do
    payload ← or_throw (json.dump_array documents)
    send_packet h (make_packet t 0 payload)

  -- To the session of a client, if it is connected.
  unfoldable pub send_to_client : Bytes → PacketType → ℕ → Document → M (Unit {0})
  send_to_client client_id t flags document = do
    found ← find_session client_id
    elim found [ none ↦ pure tt | some h ↦ send_document h t flags document ]

  unfoldable pub notify_admin_request_error : Bytes → Bytes → ErrorCode → String → M (Unit {0})
  notify_admin_request_error requester topic code message = do
    time ← gets (λ w. w.time)
    catch_with tt (
        send_to_client requester PacketType.admin_req_ack 1
          (error_document topic code message time))

  unfoldable pub notify_admin_result : Bytes → Bytes → Bool → Bytes → M (Unit {0})
  notify_admin_result requester topic approved owner = do
    time ← gets (λ w. w.time)
    catch_with tt (
        send_to_client requester PacketType.admin_result 0
          (result_document topic approved owner time))

  unfoldable pub notify_admin_revocation : Bytes → Bytes → Bytes → M (Unit {0})
  notify_admin_revocation admin topic owner = do
    time ← gets (λ w. w.time)
    catch_with tt (
        send_to_client admin PacketType.admin_result 0 (revocation_document admin topic owner time))

  -- This one has no `try`: an exception goes to the caller.
  unfoldable pub notify_admin_resignation_to_owner : Bytes → Bytes → Bytes → M (Unit {0})
  notify_admin_resignation_to_owner owner topic admin = do
    time ← gets (λ w. w.time)
    send_to_client owner PacketType.admin_notify 0 (resignation_document topic admin time)

  -- The notification goes to the subscribers of `owner/admin_notifications`, if the owner is connected.
  unfoldable pub notify_subscribers : Bytes → Bytes → Bytes → M (Unit {0})
  notify_subscribers owner topic requester = do
    time ← gets (λ w. w.time)
    inner ← or_throw (json.dump (notification_document topic requester time))
    if is_empty owner then pure tt else do
      let channel = owner ++ codes "/admin_notifications"
      subs ← gets (λ w. subscribers_of channel w.topic_subscribers)
      if is_empty subs then pure tt else do
        payload ← or_throw (json.dump (wrapper channel inner))
        send_each subs (make_packet PacketType.pub_ 0 payload)

  unfoldable pub notify_admin_request : Bytes → Bytes → Bytes → M (Unit {0})
  notify_admin_request owner topic requester = do
    found ← find_session owner
    elim found [
      | none ↦ pure tt
      | some h ↦ catch_with tt (notify_subscribers owner topic requester)
    ]
