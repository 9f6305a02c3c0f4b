-- ===== src/Db/Admins.antt =====
-- The administration of topics: requests, answers, revocation and resignation.
use tinymq_broker.Base.{
  ℕ, suc, Bytes, Bool, true, false, ◌&&◌, not, none, some, [], ◌∷◌, ◌++◌, ◌==◌, nat_equality,
  bytes_equality, if◌then◌else◌, has_row, select, update_where, delete_where,
}
use tinymq_broker.Db.Tables.{
  Topic, AdminRequest, Status, pending, approved, rejected, revoked, TopicAdmin, Tables, Server,
  Outcome, commit, rollback, raise, transaction, first_row,
}
use tinymq_broker.Db.Clients.{client_row}
use tinymq_broker.Db.Topics.{owned_by}
use tinymq_broker.Db.Subscriptions.{topic_with_id}

-- `WHERE topic_id = $1 AND admin_client_id = $2`.
unfoldable pub admin_is : ℕ → Bytes → TopicAdmin → Bool
admin_is topic_id client_id a = a.topic_id == topic_id && a.admin_client_id == client_id

unfoldable pub admin_of : ℕ → TopicAdmin → Bool
admin_of topic_id a = a.topic_id == topic_id

-- `WHERE topic_id = $1 AND requester_client_id = $2`.
unfoldable pub request_of : ℕ → Bytes → AdminRequest → Bool
request_of topic_id client_id r = r.topic_id == topic_id && r.requester_client_id == client_id

unfoldable pub is_pending : Status → Bool
is_pending pending = true
is_pending _ = false

unfoldable pub is_approved : Status → Bool
is_approved approved = true
is_approved _ = false

-- `UPDATE admin_requests SET status = ..., response_timestamp = NOW()`.
unfoldable pub answer : Status → ℕ → AdminRequest → AdminRequest
answer status now r = record r { status = status; response_timestamp = some now }

unfoldable pub topic_named : Bytes → Topic → Bool
topic_named name t = t.name == name

-- `INSERT INTO topic_admins`; its keys refuse an unknown topic or client and a second equal row.
unfoldable pub insert_admin : ℕ → Bytes → ℕ → Tables → (Tables → Outcome Bool) → Outcome Bool
unfolding client_row topic_with_id admin_is
insert_admin topic_id client_id now db next =
    let row : TopicAdmin = record {
      topic_id = topic_id;
      admin_client_id = client_id;
      granted_at = now;
    } in
    if client_row db client_id
      && topic_with_id db topic_id
      && not (has_row (admin_is topic_id client_id) db.topic_admins)
    then next (record db { topic_admins = db.topic_admins ++ (row ∷ []) })
    else raise

-- Deletes the grant and marks the approved request as revoked.
unfoldable pub withdraw : ℕ → Bytes → ℕ → Tables → Tables
unfolding admin_is request_of is_approved answer
withdraw topic_id client_id now db = record db {
  topic_admins = delete_where (admin_is topic_id client_id) db.topic_admins;
  admin_requests =
      update_where (λ r. request_of topic_id client_id r && is_approved r.status)
        (answer revoked now) db.admin_requests;
}

unfoldable pub resign_admin_status_body : Bytes → Bytes → ℕ → Tables → Outcome Bool
unfolding admin_is topic_named withdraw
resign_admin_status_body topic_name admin now db =
    first_row (select (topic_named topic_name) db.topics) (rollback false) λ topic.
      if has_row (admin_is topic.id admin) db.topic_admins
      then commit true (withdraw topic.id admin now db)
      else rollback false

unfoldable pub resign_admin_status : Bytes → Bytes → Server → Bool × Server
unfolding resign_admin_status_body
resign_admin_status topic_name admin = transaction false (resign_admin_status_body topic_name admin)

unfoldable pub revoke_admin_status_body : Bytes → Bytes → Bytes → ℕ → Tables → Outcome Bool
unfolding admin_is owned_by withdraw
revoke_admin_status_body topic_name owner admin now db =
    first_row (select (owned_by topic_name owner) db.topics) (rollback false) λ topic.
      if has_row (admin_is topic.id admin) db.topic_admins
      then commit true (withdraw topic.id admin now db)
      else rollback false

unfoldable pub revoke_admin_status : Bytes → Bytes → Bytes → Server → Bool × Server
unfolding revoke_admin_status_body
revoke_admin_status topic_name owner admin =
    transaction false (revoke_admin_status_body topic_name owner admin)

unfoldable pub admin_row : Tables → Bytes → (TopicAdmin → Bool) → Bool
unfolding topic_named
admin_row db topic_name p =
    has_row
      (λ (a : TopicAdmin).
        has_row (λ (t : Topic). a.topic_id == t.id && topic_named topic_name t) db.topics && p a)
      db.topic_admins

unfoldable pub topic_has_admin : Bytes → Server → Bool × Server
unfolding admin_row
topic_has_admin topic_name =
    transaction false (λ now db. rollback (admin_row db topic_name (λ a. true)))

-- `is_topic_admin(txn, topic_name, client_id)`.
unfoldable pub is_topic_admin : Tables → Bytes → Bytes → Bool
unfolding admin_row
is_topic_admin db topic_name client_id =
    admin_row db topic_name (λ a. a.admin_client_id == client_id)

unfoldable pub add_topic_admin_body : Bytes → Bytes → ℕ → Tables → Outcome Bool
unfolding topic_named admin_of insert_admin
add_topic_admin_body topic_name admin now db =
    first_row (select (topic_named topic_name) db.topics) (rollback false) λ topic.
      if has_row (admin_of topic.id) db.topic_admins
      then rollback false
      else insert_admin topic.id admin now db (commit true)

unfoldable pub add_topic_admin : Bytes → Bytes → Server → Bool × Server
unfolding add_topic_admin_body
add_topic_admin topic_name admin = transaction false (add_topic_admin_body topic_name admin)

-- What `check_admin_request_status` returns: one of its own words, or the status in the table.
pub data Answer : Type 0 where
  topic_not_found no_request error : Answer
  status_is : Status → Answer

unfoldable pub request_status : Tables → Bytes → Bytes → Answer
unfolding topic_named request_of
request_status db topic_name requester =
    first_row (select (topic_named topic_name) db.topics) topic_not_found λ topic.
      first_row (select (request_of topic.id requester) db.admin_requests) no_request
        λ r. status_is r.status

unfoldable pub check_admin_request_status : Bytes → Bytes → Server → Answer × Server
unfolding request_status
check_admin_request_status topic_name requester =
    transaction error (λ now db. rollback (request_status db topic_name requester))

unfoldable pub request_admin_status_body : Bytes → Bytes → ℕ → Tables → Outcome Bool
unfolding topic_named request_of client_row
request_admin_status_body topic_name requester now db =
    first_row (select (topic_named topic_name) db.topics) (rollback false) λ topic.
      let added : AdminRequest = record {
        id = db.next_request;
        topic_id = topic.id;
        requester_client_id = requester;
        status = pending;
        request_timestamp = now;
        response_timestamp = none;
      } in
      first_row (select (request_of topic.id requester) db.admin_requests)
        (if client_row db requester
          then commit true (record db {
            admin_requests = db.admin_requests ++ (added ∷ []);
            next_request = suc db.next_request;
          })
          else raise)
        λ old. commit true (record db {
          admin_requests =
              update_where (request_of topic.id requester)
                (λ r. record r {
                  status = pending;
                  request_timestamp = now;
                  response_timestamp = none;
                })
                db.admin_requests;
        })

unfoldable pub request_admin_status : Bytes → Bytes → Server → Bool × Server
unfolding request_admin_status_body
request_admin_status topic_name requester =
    transaction false (request_admin_status_body topic_name requester)

-- `WHERE topic_id = $2 AND requester_client_id = $3 AND status = 'pending'`.
unfoldable pub open_request : ℕ → Bytes → AdminRequest → Bool
unfolding request_of is_pending
open_request topic_id client_id r = request_of topic_id client_id r && is_pending r.status

unfoldable pub respond_to_admin_request_body :
    Bytes → Bytes → Bytes → Bool → ℕ → Tables → Outcome Bool
unfolding owned_by open_request answer admin_of insert_admin
respond_to_admin_request_body topic_name owner requester approve now db =
    first_row (select (owned_by topic_name owner) db.topics) (rollback false) λ topic.
      let answered = record db {
        admin_requests =
            update_where (open_request topic.id requester)
              (answer (if approve then approved else rejected) now) db.admin_requests;
      } in
      if has_row (open_request topic.id requester) db.admin_requests
      then (if approve
          then insert_admin topic.id requester now
              (record answered { topic_admins = delete_where (admin_of topic.id) db.topic_admins })
              (commit true)
          else commit true answered)
      else rollback false

unfoldable pub respond_to_admin_request : Bytes → Bytes → Bytes → Bool → Server → Bool × Server
unfolding respond_to_admin_request_body
respond_to_admin_request topic_name owner requester approve =
    transaction false (respond_to_admin_request_body topic_name owner requester approve)
