-- ===== src/Db/Topics.antt =====
-- The methods on topics and their names.
use tinymq_broker.Base.{
  ℕ, suc, Bytes, Bool, true, false, ◌&&◌, Option, none, some, [], ◌∷◌, ◌++◌, ◌==◌, nat_equality,
  bytes_equality, if◌then◌else◌, has_row, select, update_where,
}
use tinymq_broker.Db.Tables.{
  Topic, Tables, Server, Outcome, commit, rollback, transaction, first_row,
}
use tinymq_broker.Db.Names.{stored_name}
use tinymq_broker.Db.Clients.{client_row}

-- `topic_exists(txn, topic_name)`: the name is compared as it is given.
unfoldable pub topic_row : Tables → Bytes → Bool
topic_row db name = has_row (λ (t : Topic). t.name == name) db.topics

-- The public `topic_exists`.
unfoldable pub topic_exists : Bytes → Server → Bool × Server
unfolding topic_row
topic_exists name = transaction false (λ now db. rollback (topic_row db name))

unfoldable pub register_topic_body : Bytes → Bytes → ℕ → Tables → Outcome Bool
unfolding stored_name client_row topic_row
register_topic_body topic_name owner now db =
    if client_row db owner
    then (if topic_row db (stored_name topic_name)
        then rollback true
        else (let topic : Topic = record {
          id = db.next_topic;
          name = stored_name topic_name;
          owner_client_id = owner;
          created_at = now;
          publish = false;
        } in
            commit true
              (record db { topics = db.topics ++ (topic ∷ []); next_topic = suc db.next_topic })))
    else rollback false

unfoldable pub register_topic : Bytes → Bytes → Server → Bool × Server
unfolding register_topic_body
register_topic topic_name owner = transaction false (register_topic_body topic_name owner)

-- `WHERE name = $1 AND owner_client_id = $2`.
unfoldable pub owned_by : Bytes → Bytes → Topic → Bool
owned_by name owner t = t.name == name && t.owner_client_id == owner

unfoldable pub set_topic_publish_body : Bytes → Bytes → Bool → ℕ → Tables → Outcome Bool
unfolding stored_name owned_by
set_topic_publish_body topic_name owner publish now db =
    first_row (select (owned_by (stored_name topic_name) owner) db.topics) (rollback false) λ row.
      commit true (record db {
        topics =
            update_where (owned_by (stored_name topic_name) owner)
              (λ t. record t { publish = publish }) db.topics;
      })

unfoldable pub set_topic_publish : Bytes → Bytes → Bool → Server → Bool × Server
unfolding set_topic_publish_body
set_topic_publish topic_name owner publish =
    transaction false (set_topic_publish_body topic_name owner publish)

unfoldable pub id_of_name : Tables → Bytes → Option ℕ
id_of_name db name =
    first_row (select (λ (t : Topic). t.name == name) db.topics) none (λ t. some t.id)

-- `none` is the -1 of the code.
unfoldable pub get_topic_id : Bytes → Server → Option ℕ × Server
unfolding stored_name id_of_name
get_topic_id topic_name =
    transaction none (λ now db. rollback (id_of_name db (stored_name topic_name)))

-- The owner in the table, "" where there is none.
unfoldable pub get_topic_owner : Bytes → Server → Bytes × Server
get_topic_owner topic_name = transaction [] λ now db.
    rollback (
      first_row (select (λ (t : Topic). t.name == topic_name) db.topics) []
        (λ t. t.owner_client_id))
