-- ===== src/Db/Preserve.antt =====
-- The uniqueness of the tables under each method that writes, but those on administrators and sensors.
use tinymq_broker.Base.{
  ℕ, ◌≡◌, refl, Bytes, Bool, true, false, ◌&&◌, not, nat_equality, bytes_equality, if◌then◌else◌,
  select, has_row-false,
}
use tinymq_broker.Db.Tables.{Tables, Server}
use tinymq_broker.Db.Names.{stored_name}
use tinymq_broker.Db.Clients.{
  client_row, register_client, register_client_body, new_client, log_client_disconnect,
  log_client_disconnect_body,
}
use tinymq_broker.Db.Topics.{
  topic_row, register_topic, register_topic_body, set_topic_publish, set_topic_publish_body,
}
use tinymq_broker.Db.Subscriptions.{
  topic_with_id, subscription_of, add_subscription, add_subscription_body, remove_subscription,
  log_message, log_message_body,
}
use tinymq_broker.Db.Admins.{topic_named}
use tinymq_broker.Db.Committed.{
  Committed-commit, Committed-rollback, Committed-raise, Committed-if, Committed-first_row,
  transaction-Committed,
}
use tinymq_broker.Db.Invariant.{
  IsUnique, UniqueClients, client_named, UniqueTopics-insert, UniqueTopics-publish,
  UniqueClients-insert, UniqueClients-update, UniqueSubscriptions-insert,
  UniqueSubscriptions-update,
}

-- A write to tables that `IsUnique` does not read.
pub IsUnique-other :
    (db t : Tables)
    → t.clients ≡ db.clients
    → t.topics ≡ db.topics
    → t.next_topic ≡ db.next_topic
    → t.admin_requests ≡ db.admin_requests
    → t.subscriptions ≡ db.subscriptions
    → t.topic_admins ≡ db.topic_admins
    → IsUnique db
    → IsUnique t
IsUnique-other db t c tp n r s a u = record {
  clients = rw c u.clients;
  topics = rw (tp, n) u.topics;
  requests = rw r u.requests;
  subscriptions = rw s u.subscriptions;
  admins = rw a u.admins;
}

if_case {ℓ κ} :
    {A : Type ℓ} (P : A → Type κ) (b : Bool) (x y : A)
    → (b ≡ true → P x)
    → (b ≡ false → P y)
    → P (if b then x else y)
if_case P true x y p q = p refl
if_case P false x y p q = q refl

pub register_client-IsUnique :
    (id ip : Bytes) (port : ℕ) (s : Server)
    → IsUnique s.tables
    → IsUnique (register_client id ip port s).1.tables
unfolding register_client register_client_body client_row new_client
register_client-IsUnique id ip port s u =
    transaction-Committed IsUnique false (register_client_body id ip port) s u (
      Committed-commit true _ (record {
        clients =
            if_case UniqueClients (client_row s.tables id) _ _
              (λ _. UniqueClients-update _ _ s.tables.clients (λ c. refl) u.clients)
              (λ e.
                UniqueClients-insert s.tables.clients _
                  (has_row-false (client_named id) s.tables.clients e) u.clients);
        topics = u.topics;
        requests = u.requests;
        subscriptions = u.subscriptions;
        admins = u.admins;
      }))

pub log_client_disconnect-IsUnique :
    (id : Bytes) (s : Server) → IsUnique s.tables → IsUnique (log_client_disconnect id s).1.tables
unfolding log_client_disconnect log_client_disconnect_body
log_client_disconnect-IsUnique id s u =
    transaction-Committed IsUnique false (log_client_disconnect_body id) s u (
      Committed-first_row (select _ s.tables.clients) _ _ (λ _. Committed-rollback false)
        λ r rs _. Committed-commit true _ (record {
          clients = UniqueClients-update _ _ s.tables.clients (λ c. refl) u.clients;
          topics = u.topics;
          requests = u.requests;
          subscriptions = u.subscriptions;
          admins = u.admins;
        }))

pub register_topic-IsUnique :
    (topic owner : Bytes) (s : Server)
    → IsUnique s.tables
    → IsUnique (register_topic topic owner s).1.tables
unfolding register_topic register_topic_body topic_row topic_named
register_topic-IsUnique topic owner s u =
    transaction-Committed IsUnique false (register_topic_body topic owner) s u (
      Committed-if (client_row s.tables owner) _ _
        (λ _.
          Committed-if (topic_row s.tables (stored_name topic)) _ _ (λ _. Committed-rollback true)
            λ new. Committed-commit true _ (record {
              clients = u.clients;
              topics =
                  UniqueTopics-insert s.tables.topics _
                    (has_row-false (topic_named (stored_name topic)) s.tables.topics new) u.topics;
              requests = u.requests;
              subscriptions = u.subscriptions;
              admins = u.admins;
            }))
        (λ _. Committed-rollback false))

pub set_topic_publish-IsUnique :
    (topic owner : Bytes) (b : Bool) (s : Server)
    → IsUnique s.tables
    → IsUnique (set_topic_publish topic owner b s).1.tables
unfolding set_topic_publish set_topic_publish_body
set_topic_publish-IsUnique topic owner b s u =
    transaction-Committed IsUnique false (set_topic_publish_body topic owner b) s u (
      Committed-first_row (select _ s.tables.topics) _ _ (λ _. Committed-rollback false)
        λ r rs _. Committed-commit true _ (record {
          clients = u.clients;
          topics = UniqueTopics-publish _ b s.tables.topics s.tables.next_topic u.topics;
          requests = u.requests;
          subscriptions = u.subscriptions;
          admins = u.admins;
        }))

pub add_subscription-IsUnique :
    (client : Bytes) (i : ℕ) (s : Server)
    → IsUnique s.tables
    → IsUnique (add_subscription client i s).1.tables
unfolding add_subscription add_subscription_body
add_subscription-IsUnique client i s u =
    transaction-Committed IsUnique false (add_subscription_body client i) s u (
      Committed-if (not (client_row s.tables client)) _ _ (λ _. Committed-rollback false)
        λ _.
          Committed-if (not (topic_with_id s.tables i)) _ _ (λ _. Committed-rollback false)
            λ _.
              Committed-first_row (select (subscription_of client i) s.tables.subscriptions) _ _
                (λ new. Committed-commit true _ (record {
                  clients = u.clients;
                  topics = u.topics;
                  requests = u.requests;
                  subscriptions =
                      UniqueSubscriptions-insert s.tables.subscriptions _ new u.subscriptions;
                  admins = u.admins;
                }))
                (λ r rs _.
                  Committed-if r.active _ _ (λ _. Committed-commit true _ u)
                    λ _. Committed-commit true _ (record {
                      clients = u.clients;
                      topics = u.topics;
                      requests = u.requests;
                      subscriptions =
                          UniqueSubscriptions-update _ _ s.tables.subscriptions (λ x. refl)
                            (λ x. refl) u.subscriptions;
                      admins = u.admins;
                    })))

pub remove_subscription-IsUnique :
    (client : Bytes) (i : ℕ) (s : Server)
    → IsUnique s.tables
    → IsUnique (remove_subscription client i s).1.tables
unfolding remove_subscription
remove_subscription-IsUnique client i s u = transaction-Committed IsUnique false _ s u (
    Committed-commit true _ (record {
      clients = u.clients;
      topics = u.topics;
      requests = u.requests;
      subscriptions =
          UniqueSubscriptions-update _ _ s.tables.subscriptions (λ x. refl) (λ x. refl)
            u.subscriptions;
      admins = u.admins;
    }))

pub log_message-IsUnique :
    (publisher : Bytes) (i n : ℕ) (preview : Bytes) (s : Server)
    → IsUnique s.tables
    → IsUnique (log_message publisher i n preview s).1.tables
unfolding log_message log_message_body
log_message-IsUnique publisher i n preview s u =
    transaction-Committed IsUnique false (log_message_body publisher i n preview) s u (
      Committed-if (client_row s.tables publisher && topic_with_id s.tables i) _ _
        (λ _. Committed-commit true _ (IsUnique-other s.tables _ refl refl refl refl refl refl u))
        (λ _. Committed-raise))
