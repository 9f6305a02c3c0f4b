-- ===== src/Db/Subscriptions.antt =====
-- The methods on subscriptions and on the message log.
use tinymq_broker.Base.{
  ℕ, suc, Bytes, Bool, true, false, ◌&&◌, not, [], ◌∷◌, ◌++◌, ◌==◌, nat_equality, bytes_equality,
  if◌then◌else◌, has_row, select, update_where,
}
use tinymq_broker.Db.Tables.{
  Topic, MessageLog, Subscription, Tables, Server, Outcome, commit, rollback, raise, transaction,
  first_row,
}
use tinymq_broker.Db.Clients.{client_row}

unfoldable pub topic_with_id : Tables → ℕ → Bool
topic_with_id db id = has_row (λ (t : Topic). t.id == id) db.topics

-- `WHERE client_id = $1 AND topic_id = $2`.
unfoldable pub subscription_of : Bytes → ℕ → Subscription → Bool
subscription_of client_id topic_id r = r.client_id == client_id && r.topic_id == topic_id

unfoldable pub add_subscription_body : Bytes → ℕ → ℕ → Tables → Outcome Bool
unfolding client_row topic_with_id subscription_of
add_subscription_body client_id topic_id now db =
    let matches = subscription_of client_id topic_id in
    let added : Subscription = record {
      id = db.next_subscription;
      client_id = client_id;
      topic_id = topic_id;
      subscribed_at = now;
      active = true;
    } in
    if not (client_row db client_id)
    then rollback false
    else if not (topic_with_id db topic_id)
    then rollback false
    else first_row (select matches db.subscriptions)
        (commit true (record db {
          subscriptions = db.subscriptions ++ (added ∷ []);
          next_subscription = suc db.next_subscription;
        }))
        λ row.
          if row.active
          then commit true db
          else commit true (record db {
            subscriptions =
                update_where matches (λ r. record r { active = true; subscribed_at = now })
                  db.subscriptions;
          })

unfoldable pub add_subscription : Bytes → ℕ → Server → Bool × Server
unfolding add_subscription_body
add_subscription client_id topic_id = transaction false (add_subscription_body client_id topic_id)

unfoldable pub remove_subscription : Bytes → ℕ → Server → Bool × Server
unfolding subscription_of
remove_subscription client_id topic_id = transaction false λ now db. commit true (record db {
  subscriptions =
      update_where (subscription_of client_id topic_id) (λ r. record r { active = false })
        db.subscriptions;
})

-- `subscriptions s JOIN topics t ON s.topic_id = t.id WHERE ... AND t.name = $2`.
unfoldable pub subscribed_row : Tables → Bytes → Bytes → Bool
subscribed_row db client_id topic_name =
    has_row
      (λ (r : Subscription).
        has_row (λ (t : Topic). r.topic_id == t.id && t.name == topic_name) db.topics
        && r.client_id == client_id
        && r.active)
      db.subscriptions

unfoldable pub is_client_subscribed : Bytes → Bytes → Server → Bool × Server
unfolding subscribed_row
is_client_subscribed client_id topic_name =
    transaction false (λ now db. rollback (subscribed_row db client_id topic_name))

-- The foreign keys of `message_logs` refuse an unknown publisher or topic.
unfoldable pub log_message_body : Bytes → ℕ → ℕ → Bytes → ℕ → Tables → Outcome Bool
unfolding client_row topic_with_id
log_message_body publisher topic_id size preview now db =
    let row : MessageLog = record {
      publisher_client_id = publisher;
      topic_id = topic_id;
      payload_size = size;
      payload_preview = preview;
      published_at = now;
    } in
    if client_row db publisher && topic_with_id db topic_id
    then commit true (record db { message_logs = db.message_logs ++ (row ∷ []) })
    else raise

unfoldable pub log_message : Bytes → ℕ → ℕ → Bytes → Server → Bool × Server
unfolding log_message_body
log_message publisher topic_id size preview =
    transaction false (log_message_body publisher topic_id size preview)
