-- ===== src/Locks/AloneControl.antt =====
-- The control messages and `publish`, cut at their locks, against those of src/broker.cpp in one piece.
use tinymq_broker.Base.{Bytes, Bool, String}
use tinymq_broker.Broker.World.{Handle, M, Json, Value}
use tinymq_broker.Broker.Markers.{
  on_sensor_activable, on_publish_update, on_topic_create, on_sensors_sync, on_topic_publish,
  sensor_owner,
}
use tinymq_broker.Broker.Control.{
  on_marker, check_published_topic, check_published_request, on_admin_request, answer_request,
  on_admin_response, on_admin_revoke, announce_sensor, set_sensor, on_sensor_command, control,
}
use tinymq_broker.Broker.Publish.{publish}
use tinymq_broker.Locks.Prog.{Prog}
use tinymq_broker.Locks.Runs.{Runs, running, bind-Runs, find-Runs}
use tinymq_broker.Locks.Markers.{
  taking_sensor_activable, taking_publish_update, taking_topic_create, taking_sensors_sync,
  taking_topic_publish, finding_sensor_owner,
}
use tinymq_broker.Locks.Control.{
  trying_marker, checking_published_topic, checking_published_request, taking_admin_request,
  answering_request, taking_admin_response, taking_admin_revoke, announcing_sensor, setting_sensor,
  taking_sensor_command, controlling, publishing,
}
use tinymq_broker.Locks.Alone.{distributing-Runs}
use tinymq_broker.Locks.AloneAdmin.{
  sending_to_client-Runs, notifying_admin_request_error-Runs, notifying_admin_result-Runs,
  notifying_admin_revocation-Runs, entering_request-Runs,
}

taking_sensor_activable-Runs :
    (v : Value) → Runs (taking_sensor_activable v) (on_sensor_activable v)
unfolding taking_sensor_activable on_sensor_activable
taking_sensor_activable-Runs v = search (running) depth 15

taking_publish_update-Runs : (v : Value) → Runs (taking_publish_update v) (on_publish_update v)
unfolding taking_publish_update on_publish_update
taking_publish_update-Runs v = search (running) depth 15

taking_topic_create-Runs : (v : Value) → Runs (taking_topic_create v) (on_topic_create v)
unfolding taking_topic_create on_topic_create
taking_topic_create-Runs v = search (running) depth 15

taking_sensors_sync-Runs : (v : Value) → Runs (taking_sensors_sync v) (on_sensors_sync v)
unfolding taking_sensors_sync on_sensors_sync
taking_sensors_sync-Runs v = search (running) depth 15

taking_topic_publish-Runs :
    (published : Bytes) (v : Value)
    → Runs (taking_topic_publish published v) (on_topic_publish published v)
unfolding taking_topic_publish on_topic_publish
taking_topic_publish-Runs published v = search (running) depth 15

finding_sensor_owner-Runs : (topic : Bytes) → Runs (finding_sensor_owner topic) (sensor_owner topic)
unfolding finding_sensor_owner sensor_owner
finding_sensor_owner-Runs topic = search (running) depth 15

module _ (json : Json) where
  trying_marker-Runs :
      (marker : String) (message : Bytes) (acts : Value → Prog (Unit {0})) (goes_on : Prog Bool)
      (act : Value → M (Unit {0})) (next : M Bool)
      → ((v : Value) → Runs (acts v) (act v))
      → Runs goes_on next
      → Runs
          (trying_marker json marker message acts goes_on)
          (on_marker json marker message act next)
  unfolding trying_marker on_marker
  trying_marker-Runs marker message acts goes_on act next ra rn = search (running) depth 15

  checking_published_topic-Runs :
      (h : Handle) (id topic owner : Bytes)
      → Runs
          (checking_published_topic json h id topic owner)
          (check_published_topic json h id topic owner)
  unfolding checking_published_topic check_published_topic
  checking_published_topic-Runs h id topic owner =
      search (running, notifying_admin_request_error-Runs, entering_request-Runs) depth 15

  checking_published_request-Runs :
      (h : Handle) (id topic owner : Bytes)
      → Runs
          (checking_published_request json h id topic owner)
          (check_published_request json h id topic owner)
  unfolding checking_published_request check_published_request
  checking_published_request-Runs h id topic owner =
      search (running, notifying_admin_request_error-Runs, checking_published_topic-Runs) depth 15

  taking_admin_request-Runs :
      (v : Value) → Runs (taking_admin_request json v) (on_admin_request json v)
  unfolding taking_admin_request on_admin_request
  taking_admin_request-Runs v = bind-Runs _ _ _ _ (search (running)) λ id.
      bind-Runs _ _ _ _ (search (running)) λ topic. bind-Runs _ _ _ _ (search (running)) λ owner.
        find-Runs id _ _ (search (running)) λ h. search (running, checking_published_request-Runs)

  answering_request-Runs :
      (owner topic id : Bytes) (b : Bool)
      → Runs (answering_request json owner topic id b) (answer_request json owner topic id b)
  unfolding answering_request answer_request
  answering_request-Runs owner topic id b = search (running, notifying_admin_result-Runs) depth 15

  taking_admin_response-Runs :
      (v : Value) → Runs (taking_admin_response json v) (on_admin_response json v)
  unfolding taking_admin_response on_admin_response
  taking_admin_response-Runs v = bind-Runs _ _ _ _ (search (running)) λ owner.
      bind-Runs _ _ _ _ (search (running)) λ topic. bind-Runs _ _ _ _ (search (running)) λ id.
        bind-Runs _ _ _ _ (search (running))
          λ b. find-Runs owner _ _ (search (running)) λ h. search (running, answering_request-Runs)

  taking_admin_revoke-Runs :
      (v : Value) → Runs (taking_admin_revoke json v) (on_admin_revoke json v)
  unfolding taking_admin_revoke on_admin_revoke
  taking_admin_revoke-Runs v = search (running, notifying_admin_revocation-Runs) depth 15

  announcing_sensor-Runs :
      (client topic sensor : Bytes) (active : Bool) (owner : Bytes)
      → Runs
          (announcing_sensor json client topic sensor active owner)
          (announce_sensor json client topic sensor active owner)
  unfolding announcing_sensor announce_sensor
  announcing_sensor-Runs client topic sensor active owner =
      bind-Runs _ _ _ _ (search (running)) λ time. bind-Runs _ _ _ _ (search (running)) λ payload.
        find-Runs client _ _ (search (running, sending_to_client-Runs))
          λ h. search (running, sending_to_client-Runs)

  setting_sensor-Runs :
      (published message : Bytes)
      → Runs (setting_sensor json published message) (set_sensor json published message)
  unfolding setting_sensor set_sensor
  setting_sensor-Runs published message =
      search (running, finding_sensor_owner-Runs, announcing_sensor-Runs) depth 20

  taking_sensor_command-Runs :
      (published message : Bytes)
      → Runs
          (taking_sensor_command json published message)
          (on_sensor_command json published message)
  unfolding taking_sensor_command on_sensor_command
  taking_sensor_command-Runs published message = search (running, setting_sensor-Runs) depth 15

  controlling-Runs :
      (published message : Bytes)
      → Runs (controlling json published message) (control json published message)
  unfolding controlling control
  controlling-Runs published message =
      search
        (
          trying_marker-Runs, taking_sensor_activable-Runs, taking_admin_request-Runs,
          taking_admin_response-Runs, taking_admin_revoke-Runs, taking_publish_update-Runs,
          taking_topic_create-Runs, taking_sensors_sync-Runs, taking_topic_publish-Runs,
          taking_sensor_command-Runs,
        )
        depth 20

  pub publishing-Runs :
      (topic message : Bytes) → Runs (publishing json topic message) (publish json topic message)
  unfolding publishing publish
  publishing-Runs topic message = search (running, controlling-Runs, distributing-Runs) depth 15
