-- ===== src/Locks/KeepControl.antt =====
-- The control messages and `publish` of src/broker.cpp, cut at their locks, piece by piece.
use tinymq_broker.Base.{Bytes, Bool, String, List, [], ◌∷◌}
use tinymq_broker.Broker.World.{Handle, Json, Value}
use tinymq_broker.Broker.Calls.{calling}
use tinymq_broker.Locks.Prog.{Prog}
use tinymq_broker.Locks.Safe.{IsSafe, keeping, bind-IsSafe, find-IsSafe}
use tinymq_broker.Locks.Markers.{
  taking_sensor_activable, taking_publish_update, taking_topic_create, taking_sensors_sync,
  taking_topic_publish, finding_sensor_owner,
}
use tinymq_broker.Locks.Control.{
  trying_marker, checking_published_topic, checking_published_request, taking_admin_request,
  answering_request, taking_admin_response, taking_admin_revoke, announcing_sensor, setting_sensor,
  taking_sensor_command, controlling, publishing,
}
use tinymq_broker.Locks.KeepTopics.{distributing-IsSafe}
use tinymq_broker.Locks.KeepAdmin.{
  sending_to_client-IsSafe, notifying_admin_request_error-IsSafe, notifying_admin_result-IsSafe,
  notifying_admin_revocation-IsSafe, entering_request-IsSafe,
}

taking_sensor_activable-IsSafe :
    (o : List Handle) (v : Value) → IsSafe o (taking_sensor_activable v)
unfolding taking_sensor_activable
taking_sensor_activable-IsSafe o v = search (keeping, calling) depth 15

taking_publish_update-IsSafe : (o : List Handle) (v : Value) → IsSafe o (taking_publish_update v)
unfolding taking_publish_update
taking_publish_update-IsSafe o v = search (keeping, calling) depth 15

taking_topic_create-IsSafe : (o : List Handle) (v : Value) → IsSafe o (taking_topic_create v)
unfolding taking_topic_create
taking_topic_create-IsSafe o v = search (keeping, calling) depth 15

taking_sensors_sync-IsSafe : (o : List Handle) (v : Value) → IsSafe o (taking_sensors_sync v)
unfolding taking_sensors_sync
taking_sensors_sync-IsSafe o v = search (keeping) depth 15

taking_topic_publish-IsSafe :
    (o : List Handle) (published : Bytes) (v : Value) → IsSafe o (taking_topic_publish published v)
unfolding taking_topic_publish
taking_topic_publish-IsSafe o published v = search (keeping, calling) depth 15

finding_sensor_owner-IsSafe :
    (o : List Handle) (topic : Bytes) → IsSafe o (finding_sensor_owner topic)
unfolding finding_sensor_owner
finding_sensor_owner-IsSafe o topic = search (keeping, calling) depth 15

module _ (json : Json) where
  trying_marker-IsSafe :
      (o : List Handle) (marker : String) (message : Bytes) (act : Value → Prog (Unit {0}))
      (next : Prog Bool)
      → ((v : Value) → IsSafe o (act v))
      → IsSafe o next
      → IsSafe o (trying_marker json marker message act next)
  unfolding trying_marker
  trying_marker-IsSafe o marker message act next ra rn = search (keeping) depth 15

  checking_published_topic-IsSafe :
      (h : Handle) (id topic owner : Bytes)
      → IsSafe (h ∷ []) (checking_published_topic json h id topic owner)
  unfolding checking_published_topic
  checking_published_topic-IsSafe h id topic owner =
      search (keeping, calling, notifying_admin_request_error-IsSafe, entering_request-IsSafe) depth
        15

  checking_published_request-IsSafe :
      (h : Handle) (id topic owner : Bytes)
      → IsSafe (h ∷ []) (checking_published_request json h id topic owner)
  unfolding checking_published_request
  checking_published_request-IsSafe h id topic owner =
      search
        (keeping, calling, notifying_admin_request_error-IsSafe, checking_published_topic-IsSafe)
        depth 15

  taking_admin_request-IsSafe :
      (o : List Handle) (v : Value) → IsSafe o (taking_admin_request json v)
  unfolding taking_admin_request
  taking_admin_request-IsSafe o v = bind-IsSafe _ _ _ (search (keeping)) λ id.
      bind-IsSafe _ _ _ (search (keeping)) λ topic. bind-IsSafe _ _ _ (search (keeping)) λ owner.
        find-IsSafe _ id _ (search (keeping))
          λ h. search (keeping, checking_published_request-IsSafe)

  answering_request-IsSafe :
      (o : List Handle) (owner topic id : Bytes) (b : Bool)
      → IsSafe o (answering_request json owner topic id b)
  unfolding answering_request
  answering_request-IsSafe o owner topic id b =
      search (keeping, calling, notifying_admin_result-IsSafe) depth 15

  taking_admin_response-IsSafe :
      (o : List Handle) (v : Value) → IsSafe o (taking_admin_response json v)
  unfolding taking_admin_response
  taking_admin_response-IsSafe o v = bind-IsSafe _ _ _ (search (keeping)) λ owner.
      bind-IsSafe _ _ _ (search (keeping)) λ topic. bind-IsSafe _ _ _ (search (keeping)) λ id.
        bind-IsSafe _ _ _ (search (keeping)) λ b.
          find-IsSafe _ owner _ (search (keeping)) λ h. search (keeping, answering_request-IsSafe)

  taking_admin_revoke-IsSafe : (o : List Handle) (v : Value) → IsSafe o (taking_admin_revoke json v)
  unfolding taking_admin_revoke
  taking_admin_revoke-IsSafe o v =
      search (keeping, calling, notifying_admin_revocation-IsSafe) depth 15

  announcing_sensor-IsSafe :
      (o : List Handle) (client topic sensor : Bytes) (active : Bool) (owner : Bytes)
      → IsSafe o (announcing_sensor json client topic sensor active owner)
  unfolding announcing_sensor
  announcing_sensor-IsSafe o client topic sensor active owner =
      bind-IsSafe _ _ _ (search (keeping)) λ time. bind-IsSafe _ _ _ (search (keeping)) λ payload.
        find-IsSafe _ client _ (search (keeping, sending_to_client-IsSafe))
          λ h. search (keeping, sending_to_client-IsSafe)

  setting_sensor-IsSafe :
      (o : List Handle) (published message : Bytes)
      → IsSafe o (setting_sensor json published message)
  unfolding setting_sensor
  setting_sensor-IsSafe o published message =
      search (keeping, calling, finding_sensor_owner-IsSafe, announcing_sensor-IsSafe) depth 20

  taking_sensor_command-IsSafe :
      (o : List Handle) (published message : Bytes)
      → IsSafe o (taking_sensor_command json published message)
  unfolding taking_sensor_command
  taking_sensor_command-IsSafe o published message =
      search (keeping, setting_sensor-IsSafe) depth 15

  controlling-IsSafe :
      (o : List Handle) (published message : Bytes) → IsSafe o (controlling json published message)
  unfolding controlling
  controlling-IsSafe o published message =
      search
        (
          trying_marker-IsSafe, taking_sensor_activable-IsSafe, taking_admin_request-IsSafe,
          taking_admin_response-IsSafe, taking_admin_revoke-IsSafe, taking_publish_update-IsSafe,
          taking_topic_create-IsSafe, taking_sensors_sync-IsSafe, taking_topic_publish-IsSafe,
          taking_sensor_command-IsSafe,
        )
        depth 20

  pub publishing-IsSafe :
      (o : List Handle) (topic message : Bytes) → IsSafe o (publishing json topic message)
  unfolding publishing
  publishing-IsSafe o topic message =
      search (keeping, controlling-IsSafe, distributing-IsSafe) depth 15
