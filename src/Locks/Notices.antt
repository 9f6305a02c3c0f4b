-- ===== src/Locks/Notices.antt =====
-- The notifications of src/broker.cpp, cut at their locks.
use tinymq_broker.Base.{
  ℕ, Bytes, String, Bool, none, some, List, ◌++◌, nat_equality, bytes_equality, if◌then◌else◌,
  is_empty, codes,
}
use tinymq_broker.Packet.Types.{PacketType}
use tinymq_broker.Packet.{make_packet}
use tinymq_broker.Broker.World.{Handle, Document, Json}
use tinymq_broker.Broker.Subscriptions.{subscribers_of}
use tinymq_broker.Broker.Notify.{
  ErrorCode, error_document, result_document, revocation_document, resignation_document,
  notification_document, wrapper,
}
use tinymq_broker.Locks.Prog.{
  Prog, ret, returns, catches, topics_mutex, reads_under, ◌>>=◌, reads, finds_session, sends,
  sends_each,
}

module _ (json : Json) where
  -- `dump`, the packet, and `send_packet`.
  unfoldable pub sending_document : Handle → PacketType → ℕ → Document → Prog (Unit {0})
  sending_document h t flags document = do
    payload ← returns (json.dump document)
    sends h (make_packet t flags payload)

  unfoldable pub sending_documents : Handle → PacketType → List Document → Prog (Unit {0})
  sending_documents h t documents = do
    payload ← returns (json.dump_array documents)
    sends h (make_packet t 0 payload)

  -- To the session of a client, if it is connected.
  unfoldable pub sending_to_client : Bytes → PacketType → ℕ → Document → Prog (Unit {0})
  sending_to_client client_id t flags document = do
    found ← finds_session client_id
    elim found [ none ↦ ret tt | some h ↦ sending_document h t flags document ]

  unfoldable pub notifying_admin_request_error :
      Bytes → Bytes → ErrorCode → String → Prog (Unit {0})
  notifying_admin_request_error requester topic code message = do
    time ← reads (λ w. w.time)
    catches tt (
        sending_to_client requester PacketType.admin_req_ack 1
          (error_document topic code message time))

  unfoldable pub notifying_admin_result : Bytes → Bytes → Bool → Bytes → Prog (Unit {0})
  notifying_admin_result requester topic approved owner = do
    time ← reads (λ w. w.time)
    catches tt (
        sending_to_client requester PacketType.admin_result 0
          (result_document topic approved owner time))

  unfoldable pub notifying_admin_revocation : Bytes → Bytes → Bytes → Prog (Unit {0})
  notifying_admin_revocation admin topic owner = do
    time ← reads (λ w. w.time)
    catches tt (
        sending_to_client admin PacketType.admin_result 0
          (revocation_document admin topic owner time))

  -- This one has no `try`: an exception goes to the caller.
  unfoldable pub notifying_admin_resignation_to_owner : Bytes → Bytes → Bytes → Prog (Unit {0})
  notifying_admin_resignation_to_owner owner topic admin = do
    time ← reads (λ w. w.time)
    sending_to_client owner PacketType.admin_notify 0 (resignation_document topic admin time)

  -- The notification goes to the subscribers of `owner/admin_notifications`, if the owner is connected.
  unfoldable pub notifying_subscribers : Bytes → Bytes → Bytes → Prog (Unit {0})
  notifying_subscribers owner topic requester = do
    time ← reads (λ w. w.time)
    inner ← returns (json.dump (notification_document topic requester time))
    if is_empty owner then ret tt else do
      let channel = owner ++ codes "/admin_notifications"
      subs ← reads_under topics_mutex (λ w. subscribers_of channel w.topic_subscribers)
      if is_empty subs then ret tt else do
        payload ← returns (json.dump (wrapper channel inner))
        sends_each subs (make_packet PacketType.pub_ 0 payload)

  unfoldable pub notifying_admin_request : Bytes → Bytes → Bytes → Prog (Unit {0})
  notifying_admin_request owner topic requester = do
    found ← finds_session owner
    elim found [ none ↦ ret tt | some h ↦ catches tt (notifying_subscribers owner topic requester) ]
