-- ===== src/Locks/KeepAdmin.antt =====
-- The notifications, the administration and the listings of src/broker.cpp, cut at their locks, piece
-- by piece.
use tinymq_broker.Base.{is_empty, ℕ, Bytes, Bool, List, [], ◌∷◌, String}
use tinymq_broker.Packet.Types.{PacketType}
use tinymq_broker.Db.Listings.{Rendering}
use tinymq_broker.Broker.World.{Handle, Json, Document}
use tinymq_broker.Broker.Notify.{ErrorCode}
use tinymq_broker.Broker.Calls.{calling}
use tinymq_broker.Locks.Safe.{
  IsSafe, keeping, bind-IsSafe, if-IsSafe, ret-IsSafe, find-IsSafe, subscribers-IsSafe,
}
use tinymq_broker.Locks.Notices.{
  sending_document, sending_documents, sending_to_client, notifying_admin_request_error,
  notifying_admin_result, notifying_admin_revocation, notifying_admin_resignation_to_owner,
  notifying_subscribers, notifying_admin_request,
}
use tinymq_broker.Locks.Requests.{
  entering_request, checking_topic, checking_clients, checking_request, handling_admin_request,
  handling_admin_response, handling_admin_resignation,
}
use tinymq_broker.Locks.Lists.{
  sending_topic_list, sending_published_topics, sending_my_admin_topics, sending_my_topics,
  sending_admin_requests_list, sending_my_admin_requests, sending_topic_sensors_config,
}

module _ (json : Json) where
  pub sending_document-IsSafe :
      (h : Handle) (t : PacketType) (n : ℕ) (d : Document)
      → IsSafe (h ∷ []) (sending_document json h t n d)
  unfolding sending_document
  sending_document-IsSafe h t n d = search (keeping)

  pub sending_documents-IsSafe :
      (h : Handle) (t : PacketType) (ds : List Document)
      → IsSafe (h ∷ []) (sending_documents json h t ds)
  unfolding sending_documents
  sending_documents-IsSafe h t ds = search (keeping)

  pub sending_to_client-IsSafe :
      (o : List Handle) (id : Bytes) (t : PacketType) (n : ℕ) (d : Document)
      → IsSafe o (sending_to_client json id t n d)
  unfolding sending_to_client
  sending_to_client-IsSafe o id t n d =
      find-IsSafe _ id _ (search (keeping)) λ h. search (keeping, sending_document-IsSafe)

  pub notifying_admin_request_error-IsSafe :
      (o : List Handle) (id topic : Bytes) (e : ErrorCode) (s : String)
      → IsSafe o (notifying_admin_request_error json id topic e s)
  unfolding notifying_admin_request_error
  notifying_admin_request_error-IsSafe o id topic e s = search (keeping, sending_to_client-IsSafe)

  pub notifying_admin_result-IsSafe :
      (o : List Handle) (id topic : Bytes) (b : Bool) (owner : Bytes)
      → IsSafe o (notifying_admin_result json id topic b owner)
  unfolding notifying_admin_result
  notifying_admin_result-IsSafe o id topic b owner = search (keeping, sending_to_client-IsSafe)

  pub notifying_admin_revocation-IsSafe :
      (o : List Handle) (admin topic owner : Bytes)
      → IsSafe o (notifying_admin_revocation json admin topic owner)
  unfolding notifying_admin_revocation
  notifying_admin_revocation-IsSafe o admin topic owner = search (keeping, sending_to_client-IsSafe)

  notifying_admin_resignation_to_owner-IsSafe :
      (o : List Handle) (owner topic admin : Bytes)
      → IsSafe o (notifying_admin_resignation_to_owner json owner topic admin)
  unfolding notifying_admin_resignation_to_owner
  notifying_admin_resignation_to_owner-IsSafe o owner topic admin =
      search (keeping, sending_to_client-IsSafe)

  notifying_subscribers-IsSafe :
      (o : List Handle) (owner topic id : Bytes)
      → IsSafe o (notifying_subscribers json owner topic id)
  unfolding notifying_subscribers
  notifying_subscribers-IsSafe o owner topic id = bind-IsSafe _ _ _ (search (keeping)) λ time.
      bind-IsSafe _ _ _ (search (keeping)) λ inner.
        if-IsSafe _ (is_empty owner) _ _ (ret-IsSafe _ tt)
          (subscribers-IsSafe _ _ _ λ hs. search (keeping) depth 12)

  notifying_admin_request-IsSafe :
      (o : List Handle) (owner topic id : Bytes)
      → IsSafe o (notifying_admin_request json owner topic id)
  unfolding notifying_admin_request
  notifying_admin_request-IsSafe o owner topic id =
      find-IsSafe _ owner _ (search (keeping)) λ h. search (keeping, notifying_subscribers-IsSafe)

  ruleset notifying = (
    keeping, calling, sending_document-IsSafe, sending_documents-IsSafe,
    notifying_admin_request-IsSafe, notifying_admin_request_error-IsSafe,
    notifying_admin_result-IsSafe, notifying_admin_resignation_to_owner-IsSafe,
  )

  pub entering_request-IsSafe :
      (h : Handle) (id topic owner : Bytes)
      → IsSafe (h ∷ []) (entering_request json h id topic owner)
  unfolding entering_request
  entering_request-IsSafe h id topic owner = search (notifying) depth 12

  checking_topic-IsSafe :
      (h : Handle) (id topic owner : Bytes) → IsSafe (h ∷ []) (checking_topic json h id topic owner)
  unfolding checking_topic
  checking_topic-IsSafe h id topic owner = search (notifying, entering_request-IsSafe) depth 12

  checking_clients-IsSafe :
      (h : Handle) (id topic owner : Bytes)
      → IsSafe (h ∷ []) (checking_clients json h id topic owner)
  unfolding checking_clients
  checking_clients-IsSafe h id topic owner = search (notifying, checking_topic-IsSafe) depth 12

  checking_request-IsSafe :
      (h : Handle) (id topic owner : Bytes)
      → IsSafe (h ∷ []) (checking_request json h id topic owner)
  unfolding checking_request
  checking_request-IsSafe h id topic owner = search (notifying, checking_clients-IsSafe) depth 12

  pub handling_admin_request-IsSafe :
      (h : Handle) (topic : Bytes) → IsSafe (h ∷ []) (handling_admin_request json h topic)
  unfolding handling_admin_request
  handling_admin_request-IsSafe h topic = search (notifying, checking_request-IsSafe) depth 12

  pub handling_admin_response-IsSafe :
      (h : Handle) (topic id : Bytes) (b : Bool)
      → IsSafe (h ∷ []) (handling_admin_response json h topic id b)
  unfolding handling_admin_response
  handling_admin_response-IsSafe h topic id b = search (notifying) depth 12

  pub handling_admin_resignation-IsSafe :
      (h : Handle) (topic : Bytes) → IsSafe (h ∷ []) (handling_admin_resignation json h topic)
  unfolding handling_admin_resignation
  handling_admin_resignation-IsSafe h topic = search (notifying) depth 12

sending_topic_list-IsSafe :
    (h : Handle) (ts : List (Bytes × Bytes)) → IsSafe (h ∷ []) (sending_topic_list h ts)
unfolding sending_topic_list
sending_topic_list-IsSafe h ts = search (keeping)

pub sending_published_topics-IsSafe :
    (r : Rendering) (h : Handle) → IsSafe (h ∷ []) (sending_published_topics r h)
unfolding sending_published_topics
sending_published_topics-IsSafe r h = search (keeping, calling, sending_topic_list-IsSafe) depth 12

module _ (json : Json) (r : Rendering) where
  pub sending_my_admin_topics-IsSafe :
      (h : Handle) → IsSafe (h ∷ []) (sending_my_admin_topics json r h)
  unfolding sending_my_admin_topics
  sending_my_admin_topics-IsSafe h = search (keeping, calling, sending_documents-IsSafe) depth 12

  pub sending_my_topics-IsSafe : (h : Handle) → IsSafe (h ∷ []) (sending_my_topics json r h)
  unfolding sending_my_topics
  sending_my_topics-IsSafe h = search (keeping, calling, sending_documents-IsSafe) depth 12

  pub sending_admin_requests_list-IsSafe :
      (h : Handle) → IsSafe (h ∷ []) (sending_admin_requests_list json r h)
  unfolding sending_admin_requests_list
  sending_admin_requests_list-IsSafe h =
      search (keeping, calling, sending_documents-IsSafe) depth 12

  pub sending_my_admin_requests-IsSafe :
      (h : Handle) → IsSafe (h ∷ []) (sending_my_admin_requests json r h)
  unfolding sending_my_admin_requests
  sending_my_admin_requests-IsSafe h = search (keeping, calling, sending_documents-IsSafe) depth 12

  pub sending_topic_sensors_config-IsSafe :
      (h : Handle) (topic : Bytes) → IsSafe (h ∷ []) (sending_topic_sensors_config json r h topic)
  unfolding sending_topic_sensors_config
  sending_topic_sensors_config-IsSafe h topic =
      search (keeping, calling, sending_document-IsSafe) depth 12
