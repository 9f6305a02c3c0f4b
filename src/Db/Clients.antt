-- ===== src/Db/Clients.antt =====
-- The methods on clients.
use tinymq_broker.Base.{
  ℕ, ◌+◌, Bytes, Bool, true, false, List, [], ◌∷◌, ◌++◌, ◌==◌, bytes_equality, if◌then◌else◌,
  has_row, select, update_where, map, is_empty, length, ltb, not,
}
use tinymq_broker.Db.Tables.{
  Client, ConnectionEvent, connected, disconnected, Tables, Server, Outcome, commit, rollback,
  transaction, first_row,
}

-- `client_exists(txn, client_id)`.
unfoldable pub client_row : Tables → Bytes → Bool
client_row db client_id = has_row (λ (c : Client). c.client_id == client_id) db.clients

-- The public `client_exists`.
unfoldable pub client_exists : Bytes → Server → Bool × Server
unfolding client_row
client_exists client_id = transaction false (λ now db. rollback (client_row db client_id))

unfoldable pub new_client : ℕ → Bytes → Bytes → ℕ → Client
new_client now client_id ip port = record {
  client_id = client_id;
  last_connected = now;
  last_ip = ip;
  last_port = port;
  connection_count = 1;
  active = true;
}

unfoldable pub register_client_body : Bytes → Bytes → ℕ → ℕ → Tables → Outcome Bool
unfolding client_row new_client
register_client_body client_id ip port now db =
    let event : ConnectionEvent = record {
      client_id = client_id;
      event_type = connected;
      ip_address = ip;
      port = port;
      timestamp = now;
    } in
    let clients =
      if client_row db client_id
      then update_where (λ (c : Client). c.client_id == client_id)
          (λ c. record c {
            last_connected = now;
            last_ip = ip;
            last_port = port;
            connection_count = c.connection_count + 1;
            active = true;
          })
          db.clients
      else db.clients ++ (new_client now client_id ip port ∷ []) in
    commit true
      (record db { clients = clients; connection_events = db.connection_events ++ (event ∷ []) })

unfoldable pub register_client : Bytes → Bytes → ℕ → Server → Bool × Server
unfolding register_client_body
register_client client_id ip port = transaction false (register_client_body client_id ip port)

unfoldable pub log_client_disconnect_body : Bytes → ℕ → Tables → Outcome Bool
log_client_disconnect_body client_id now db =
    first_row (select (λ (c : Client). c.client_id == client_id) db.clients) (rollback false) λ row.
      let event : ConnectionEvent = record {
        client_id = client_id;
        event_type = disconnected;
        ip_address = row.last_ip;
        port = row.last_port;
        timestamp = now;
      } in
      commit true (record db {
        connection_events = db.connection_events ++ (event ∷ []);
        clients =
            update_where (λ (c : Client). c.client_id == client_id)
              (λ c. record c { active = false }) db.clients;
      })

unfoldable pub log_client_disconnect : Bytes → Server → Bool × Server
unfolding log_client_disconnect_body
log_client_disconnect client_id = transaction false (log_client_disconnect_body client_id)

-- `get_inactive_clients`: one query for up to five clients, one for each beyond; both select the
-- listed clients whose row is inactive. The first query returns them in the order of the table, as
-- no `ORDER BY` fixes another.
unfoldable pub listed : List Bytes → Bytes → Bool
listed [] c = false
listed (x ∷ xs) c = let rest = listed xs c in if x == c then true else rest

unfoldable pub inactive_row : Tables → Bytes → Bool
inactive_row db client_id =
    has_row
      (λ (c : Client).
        if c.client_id == client_id then (if c.active then false else true) else false)
      db.clients

unfoldable pub get_inactive_clients : List Bytes → Server → List Bytes × Server
unfolding listed inactive_row
get_inactive_clients ids =
    if is_empty ids
    then (λ s. ([], s))
    else transaction [] λ now db. rollback (
        if ltb 5 (length ids)
        then select (inactive_row db) ids
        else map (λ (c : Client). c.client_id)
            (select (λ (c : Client). if listed ids c.client_id then not c.active else false)
              db.clients))
