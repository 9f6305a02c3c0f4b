-- ===== src/Broker/Listings.antt =====
-- The replies of src/broker.cpp that list rows of the database.
use tinymq_broker.Base.{
  ℕ, ◌+◌, ◌-◌, ◌*◌, ◌^◌, Bytes, String, true, false, not, Option, none, some, List, [], ◌∷◌, ◌++◌,
  map, ◌==◌, nat_equality, bytes_equality, if◌then◌else◌, is_digit, ltb, codes,
}
use tinymq_broker.Packet.Types.{PacketType}
use tinymq_broker.Packet.{make_packet}
use tinymq_broker.Broker.World.{
  Handle, M, ◌>>=◌, ◌>>◌, pure, or_throw, catch_with, database, gets, send_packet, text, flag,
  number, rows, Document, Json,
}
use tinymq_broker.Db.Listings.{
  Rendering, AdminTopic, OwnTopic, RequestInfo, get_admin_topics, get_topic_sensors_config,
  get_published_topics, get_admin_requests, get_client_admin_requests, get_my_topics,
}
use tinymq_broker.Broker.Notify.{send_document, send_documents}

-- The value of the digits in front, after those read so far.
unfoldable pub leading_number : ℕ → Bytes → ℕ
leading_number n [] = n
leading_number n (c ∷ s) =
    let rest = leading_number (n * 10 + (c - 48)) s in if is_digit c then rest else n

-- `std::stoi` and `std::stoll` of a text with no blank and no sign in front: the number that its
-- digits in front write. They throw where there is none, or where it is above the limit.
unfoldable pub parse_number : ℕ → Bytes → Option ℕ
parse_number limit [] = none
parse_number limit (c ∷ s) =
    let n = leading_number 0 (c ∷ s) in
    if is_digit c then (if ltb limit n then none else some n) else none

abbrev pub int_max : ℕ
int_max = 2 ^ 31 - 1

abbrev pub long_max : ℕ
long_max = 2 ^ 63 - 1

unfoldable pub admin_topic_document : AdminTopic → Document
admin_topic_document t =
    ("name", text t.name)
    ∷ ("owner_client_id", text t.owner_client_id)
    ∷ ("publish", text t.publish)
    ∷ ("granted_at", text t.granted_at)
    ∷ []

unfoldable pub own_topic_document : OwnTopic → Document
own_topic_document t =
    ("name", text t.name)
    ∷ ("publish_active", flag (t.publish_active == codes "true"))
    ∷ ("admin_client_id", text t.admin_client_id)
    ∷ ("created_at", text t.created_at)
    ∷ []

-- An entry of the list that an owner is sent.
unfoldable pub owner_request_document : RequestInfo → Option Document
owner_request_document q = elim (parse_number int_max q.id) [
  | none ↦ none
  | some id ↦ elim (parse_number long_max q.request_time) [
    | none ↦ none
    | some time ↦ some (
        ("id", number id)
        ∷ ("topic", text q.topic)
        ∷ ("requester_id", text q.requester_client_id)
        ∷ ("status", text q.status)
        ∷ ("request_time", number time)
        ∷ [])
  ]
]

-- An entry of the list that a requester is sent.
unfoldable pub own_request_document : RequestInfo → Option Document
own_request_document q = elim (parse_number int_max q.id) [
  | none ↦ none
  | some id ↦ elim (parse_number long_max q.request_time) [
    | none ↦ none
    | some time ↦ some (
        ("id", number id)
        ∷ ("topic_name", text q.topic)
        ∷ ("owner_id", text q.owner_client_id)
        ∷ ("status", text q.status)
        ∷ ("request_timestamp", number time)
        ∷ [])
  ]
]

-- The loop over the rows; the first that throws ends it.
unfoldable pub all_documents :
    (RequestInfo → Option Document) → List RequestInfo → Option (List Document)
all_documents f [] = some []
all_documents f (q ∷ qs) =
    let rest = all_documents f qs in
    elim (f q) [ none ↦ none | some d ↦ elim rest [ none ↦ none | some ds ↦ some (d ∷ ds) ] ]

-- `Session::send_topic_list` writes its JSON by hand, with no escapes.
unfoldable pub topic_entry : Bytes × Bytes → Bytes
topic_entry t = codes "{\"name\":\"" ++ (t.0 ++ (codes "\",\"owner\":\"" ++ (t.1 ++ codes "\"}")))

unfoldable pub topic_entries : List (Bytes × Bytes) → Bytes
topic_entries [] = []
topic_entries (t ∷ []) = topic_entry t
topic_entries (t ∷ (u ∷ ts)) = topic_entry t ++ (codes "," ++ topic_entries (u ∷ ts))

unfoldable pub send_topic_list : Handle → List (Bytes × Bytes) → M (Unit {0})
send_topic_list h topics =
    send_packet h
      (make_packet PacketType.topic_resp 0 (codes "[" ++ (topic_entries topics ++ codes "]")))

unfoldable pub send_published_topics : Rendering → Handle → M (Unit {0})
send_published_topics r h = do
  db ← gets (λ w. w.has_database)
  if not db
      then send_topic_list h []
      else do topics ← database (get_published_topics r); send_topic_list h topics

abbrev pub sensors_document : Bytes → List (List (String × Bytes)) → Document
sensors_document topic sensors = ("topic_name", text topic) ∷ ("sensors", rows sensors) ∷ []

module _ (json : Json) (r : Rendering) where
  unfoldable pub send_my_admin_topics : Handle → M (Unit {0})
  send_my_admin_topics h = do
    db ← gets (λ w. w.has_database)
    if not db then pure tt else do
      client ← gets (λ w. (w.objects h).client_id)
      topics ← database (get_admin_topics r client)
      send_documents json h PacketType.my_admin_topics_resp (map admin_topic_document topics)

  unfoldable pub send_my_topics : Handle → M (Unit {0})
  send_my_topics h = do
    db ← gets (λ w. w.has_database)
    if not db then pure tt else do
      client ← gets (λ w. (w.objects h).client_id)
      topics ← database (get_my_topics r client)
      send_documents json h PacketType.my_topics_resp (map own_topic_document topics)

  -- Without a database the payload is empty.
  unfoldable pub send_admin_requests_list : Handle → M (Unit {0})
  send_admin_requests_list h = do
    db ← gets (λ w. w.has_database)
    if not db then send_packet h (make_packet PacketType.admin_list_resp 0 []) else do
      client ← gets (λ w. (w.objects h).client_id)
      requests ← database (get_admin_requests r client true)
      documents ← or_throw (all_documents owner_request_document requests)
      send_documents json h PacketType.admin_list_resp documents

  -- Without a database the payload is `std::vector<uint8_t>(2, 0)`.
  unfoldable pub send_my_admin_requests : Handle → M (Unit {0})
  send_my_admin_requests h = do
    db ← gets (λ w. w.has_database)
    if not db then send_packet h (make_packet PacketType.my_admin_resp 0 (0 ∷ 0 ∷ [])) else do
      client ← gets (λ w. (w.objects h).client_id)
      requests ← database (get_client_admin_requests r client)
      documents ← or_throw (all_documents own_request_document requests)
      send_documents json h PacketType.my_admin_resp documents

  -- `catch` answers with an empty list, whose own `dump` is not guarded.
  unfoldable pub send_topic_sensors_config : Handle → Bytes → M (Unit {0})
  send_topic_sensors_config h topic = do
    db ← gets (λ w. w.has_database)
    if not db
        then send_document json h PacketType.topic_sensors_resp 0 (sensors_document topic [])
        else do
          client ← gets (λ w. (w.objects h).client_id)
          sent ← catch_with false (do
            sensors ← database (get_topic_sensors_config r topic client)
            send_document json h PacketType.topic_sensors_resp 0 (sensors_document topic sensors)
            pure true)
          if sent
              then pure tt
              else send_document json h PacketType.topic_sensors_resp 0 (sensors_document topic [])
