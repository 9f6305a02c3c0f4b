-- ===== src/Locks/AloneAdmin.antt =====
-- The notifications, the administration and the listings, cut at their locks, against those of
-- src/broker.cpp in one piece.
use tinymq_broker.Base.{is_empty, ℕ, Bytes, Bool, List, String}
use tinymq_broker.Packet.Types.{PacketType}
use tinymq_broker.Db.Listings.{Rendering}
use tinymq_broker.Broker.World.{Handle, Json, Document}
use tinymq_broker.Broker.Notify.{
  ErrorCode, send_document, send_documents, send_to_client, notify_admin_request_error,
  notify_admin_result, notify_admin_revocation, notify_admin_resignation_to_owner,
  notify_subscribers, notify_admin_request,
}
use tinymq_broker.Broker.Admin.{
  enter_request, check_topic, check_clients, check_request, handle_admin_request,
  handle_admin_response, handle_admin_resignation,
}
use tinymq_broker.Broker.Listings.{
  send_topic_list, send_published_topics, send_my_admin_topics, send_my_topics,
  send_admin_requests_list, send_my_admin_requests, send_topic_sensors_config,
}
use tinymq_broker.Locks.Runs.{Runs, running, bind-Runs, find-Runs, if-Runs, ret-Runs}
use tinymq_broker.Locks.Notices.{
  sending_document, sending_documents, sending_to_client, notifying_admin_request_error,
  notifying_admin_result, notifying_admin_revocation, notifying_admin_resignation_to_owner,
  notifying_subscribers, notifying_admin_request,
}
use tinymq_broker.Locks.Requests.{
  entering_request, checking_topic, checking_clients, checking_request, handling_admin_request,
  handling_admin_response, handling_admin_resignation,
}
use tinymq_broker.Locks.Lists.{
  sending_topic_list, sending_published_topics, sending_my_admin_topics, sending_my_topics,
  sending_admin_requests_list, sending_my_admin_requests, sending_topic_sensors_config,
}

module _ (json : Json) where
  pub sending_document-Runs :
      (h : Handle) (t : PacketType) (n : ℕ) (d : Document)
      → Runs (sending_document json h t n d) (send_document json h t n d)
  unfolding sending_document send_document
  sending_document-Runs h t n d = search (running)

  pub sending_documents-Runs :
      (h : Handle) (t : PacketType) (ds : List Document)
      → Runs (sending_documents json h t ds) (send_documents json h t ds)
  unfolding sending_documents send_documents
  sending_documents-Runs h t ds = search (running)

  pub sending_to_client-Runs :
      (id : Bytes) (t : PacketType) (n : ℕ) (d : Document)
      → Runs (sending_to_client json id t n d) (send_to_client json id t n d)
  unfolding sending_to_client send_to_client
  sending_to_client-Runs id t n d =
      find-Runs id _ _ (search (running)) λ h. search (running, sending_document-Runs)

  pub notifying_admin_request_error-Runs :
      (id topic : Bytes) (e : ErrorCode) (s : String)
      → Runs
          (notifying_admin_request_error json id topic e s)
          (notify_admin_request_error json id topic e s)
  unfolding notifying_admin_request_error notify_admin_request_error
  notifying_admin_request_error-Runs id topic e s = search (running, sending_to_client-Runs)

  pub notifying_admin_result-Runs :
      (id topic : Bytes) (b : Bool) (owner : Bytes)
      → Runs
          (notifying_admin_result json id topic b owner)
          (notify_admin_result json id topic b owner)
  unfolding notifying_admin_result notify_admin_result
  notifying_admin_result-Runs id topic b owner = search (running, sending_to_client-Runs)

  pub notifying_admin_revocation-Runs :
      (admin topic owner : Bytes)
      → Runs
          (notifying_admin_revocation json admin topic owner)
          (notify_admin_revocation json admin topic owner)
  unfolding notifying_admin_revocation notify_admin_revocation
  notifying_admin_revocation-Runs admin topic owner = search (running, sending_to_client-Runs)

  notifying_admin_resignation_to_owner-Runs :
      (owner topic admin : Bytes)
      → Runs
          (notifying_admin_resignation_to_owner json owner topic admin)
          (notify_admin_resignation_to_owner json owner topic admin)
  unfolding notifying_admin_resignation_to_owner notify_admin_resignation_to_owner
  notifying_admin_resignation_to_owner-Runs owner topic admin =
      search (running, sending_to_client-Runs)

  notifying_subscribers-Runs :
      (owner topic id : Bytes)
      → Runs (notifying_subscribers json owner topic id) (notify_subscribers json owner topic id)
  unfolding notifying_subscribers notify_subscribers
  notifying_subscribers-Runs owner topic id = bind-Runs _ _ _ _ (search (running)) λ time.
      bind-Runs _ _ _ _ (search (running)) λ inner.
        if-Runs (is_empty owner) _ _ _ _ (ret-Runs tt)
          (bind-Runs _ _ _ _ (search (running)) λ hs. search (running) depth 12)

  notifying_admin_request-Runs :
      (owner topic id : Bytes)
      → Runs
          (notifying_admin_request json owner topic id)
          (notify_admin_request json owner topic id)
  unfolding notifying_admin_request notify_admin_request
  notifying_admin_request-Runs owner topic id =
      find-Runs owner _ _ (search (running)) λ h. search (running, notifying_subscribers-Runs)

  ruleset notifying = (
    running, sending_document-Runs, sending_documents-Runs, notifying_admin_request-Runs,
    notifying_admin_request_error-Runs, notifying_admin_result-Runs,
    notifying_admin_resignation_to_owner-Runs,
  )

  pub entering_request-Runs :
      (h : Handle) (id topic owner : Bytes)
      → Runs (entering_request json h id topic owner) (enter_request json h id topic owner)
  unfolding entering_request enter_request
  entering_request-Runs h id topic owner = search (notifying) depth 12

  checking_topic-Runs :
      (h : Handle) (id topic owner : Bytes)
      → Runs (checking_topic json h id topic owner) (check_topic json h id topic owner)
  unfolding checking_topic check_topic
  checking_topic-Runs h id topic owner = search (notifying, entering_request-Runs) depth 12

  checking_clients-Runs :
      (h : Handle) (id topic owner : Bytes)
      → Runs (checking_clients json h id topic owner) (check_clients json h id topic owner)
  unfolding checking_clients check_clients
  checking_clients-Runs h id topic owner = search (notifying, checking_topic-Runs) depth 12

  checking_request-Runs :
      (h : Handle) (id topic owner : Bytes)
      → Runs (checking_request json h id topic owner) (check_request json h id topic owner)
  unfolding checking_request check_request
  checking_request-Runs h id topic owner = search (notifying, checking_clients-Runs) depth 12

  pub handling_admin_request-Runs :
      (h : Handle) (topic : Bytes)
      → Runs (handling_admin_request json h topic) (handle_admin_request json h topic)
  unfolding handling_admin_request handle_admin_request
  handling_admin_request-Runs h topic = search (notifying, checking_request-Runs) depth 12

  pub handling_admin_response-Runs :
      (h : Handle) (topic id : Bytes) (b : Bool)
      → Runs (handling_admin_response json h topic id b) (handle_admin_response json h topic id b)
  unfolding handling_admin_response handle_admin_response
  handling_admin_response-Runs h topic id b = search (notifying) depth 12

  pub handling_admin_resignation-Runs :
      (h : Handle) (topic : Bytes)
      → Runs (handling_admin_resignation json h topic) (handle_admin_resignation json h topic)
  unfolding handling_admin_resignation handle_admin_resignation
  handling_admin_resignation-Runs h topic = search (notifying) depth 12

sending_topic_list-Runs :
    (h : Handle) (ts : List (Bytes × Bytes)) → Runs (sending_topic_list h ts) (send_topic_list h ts)
unfolding sending_topic_list send_topic_list
sending_topic_list-Runs h ts = search (running)

pub sending_published_topics-Runs :
    (r : Rendering) (h : Handle) → Runs (sending_published_topics r h) (send_published_topics r h)
unfolding sending_published_topics send_published_topics
sending_published_topics-Runs r h = search (running, sending_topic_list-Runs) depth 12

module _ (json : Json) (r : Rendering) where
  pub sending_my_admin_topics-Runs :
      (h : Handle) → Runs (sending_my_admin_topics json r h) (send_my_admin_topics json r h)
  unfolding sending_my_admin_topics send_my_admin_topics
  sending_my_admin_topics-Runs h = search (running, sending_documents-Runs) depth 12

  pub sending_my_topics-Runs :
      (h : Handle) → Runs (sending_my_topics json r h) (send_my_topics json r h)
  unfolding sending_my_topics send_my_topics
  sending_my_topics-Runs h = search (running, sending_documents-Runs) depth 12

  pub sending_admin_requests_list-Runs :
      (h : Handle) → Runs (sending_admin_requests_list json r h) (send_admin_requests_list json r h)
  unfolding sending_admin_requests_list send_admin_requests_list
  sending_admin_requests_list-Runs h = search (running, sending_documents-Runs) depth 12

  pub sending_my_admin_requests-Runs :
      (h : Handle) → Runs (sending_my_admin_requests json r h) (send_my_admin_requests json r h)
  unfolding sending_my_admin_requests send_my_admin_requests
  sending_my_admin_requests-Runs h = search (running, sending_documents-Runs) depth 12

  pub sending_topic_sensors_config-Runs :
      (h : Handle) (topic : Bytes)
      → Runs
          (sending_topic_sensors_config json r h topic)
          (send_topic_sensors_config json r h topic)
  unfolding sending_topic_sensors_config send_topic_sensors_config
  sending_topic_sensors_config-Runs h topic = search (running, sending_document-Runs) depth 12
