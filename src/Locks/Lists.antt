-- ===== src/Locks/Lists.antt =====
-- The replies of src/broker.cpp that list rows of the database, cut at their locks.
use tinymq_broker.Base.{Bytes, true, false, not, List, [], ◌∷◌, ◌++◌, map, if◌then◌else◌, codes}
use tinymq_broker.Packet.Types.{PacketType}
use tinymq_broker.Packet.{make_packet}
use tinymq_broker.Broker.World.{Handle, Json}
use tinymq_broker.Db.Listings.{
  Rendering, get_admin_topics, get_topic_sensors_config, get_published_topics, get_admin_requests,
  get_client_admin_requests, get_my_topics,
}
use tinymq_broker.Broker.Listings.{
  admin_topic_document, own_topic_document, owner_request_document, own_request_document,
  all_documents, topic_entries, sensors_document,
}
use tinymq_broker.Locks.Prog.{Prog, ret, returns, catches, ◌>>=◌, ◌>>◌, reads, calls, sends}
use tinymq_broker.Locks.Notices.{sending_document, sending_documents}

unfoldable pub sending_topic_list : Handle → List (Bytes × Bytes) → Prog (Unit {0})
sending_topic_list h topics =
    sends h (make_packet PacketType.topic_resp 0 (codes "[" ++ (topic_entries topics ++ codes "]")))

unfoldable pub sending_published_topics : Rendering → Handle → Prog (Unit {0})
sending_published_topics r h = do
  db ← reads (λ w. w.has_database)
  if not db
      then sending_topic_list h []
      else do topics ← calls (get_published_topics r); sending_topic_list h topics

module _ (json : Json) (r : Rendering) where
  unfoldable pub sending_my_admin_topics : Handle → Prog (Unit {0})
  sending_my_admin_topics h = do
    db ← reads (λ w. w.has_database)
    if not db then ret tt else do
      client ← reads (λ w. (w.objects h).client_id)
      topics ← calls (get_admin_topics r client)
      sending_documents json h PacketType.my_admin_topics_resp (map admin_topic_document topics)

  unfoldable pub sending_my_topics : Handle → Prog (Unit {0})
  sending_my_topics h = do
    db ← reads (λ w. w.has_database)
    if not db then ret tt else do
      client ← reads (λ w. (w.objects h).client_id)
      topics ← calls (get_my_topics r client)
      sending_documents json h PacketType.my_topics_resp (map own_topic_document topics)

  -- Without a database the payload is empty.
  unfoldable pub sending_admin_requests_list : Handle → Prog (Unit {0})
  sending_admin_requests_list h = do
    db ← reads (λ w. w.has_database)
    if not db then sends h (make_packet PacketType.admin_list_resp 0 []) else do
      client ← reads (λ w. (w.objects h).client_id)
      requests ← calls (get_admin_requests r client true)
      documents ← returns (all_documents owner_request_document requests)
      sending_documents json h PacketType.admin_list_resp documents

  -- Without a database the payload is `std::vector<uint8_t>(2, 0)`.
  unfoldable pub sending_my_admin_requests : Handle → Prog (Unit {0})
  sending_my_admin_requests h = do
    db ← reads (λ w. w.has_database)
    if not db then sends h (make_packet PacketType.my_admin_resp 0 (0 ∷ 0 ∷ [])) else do
      client ← reads (λ w. (w.objects h).client_id)
      requests ← calls (get_client_admin_requests r client)
      documents ← returns (all_documents own_request_document requests)
      sending_documents json h PacketType.my_admin_resp documents

  -- `catch` answers with an empty list, whose own `dump` is not guarded.
  unfoldable pub sending_topic_sensors_config : Handle → Bytes → Prog (Unit {0})
  sending_topic_sensors_config h topic = do
    db ← reads (λ w. w.has_database)
    if not db
        then sending_document json h PacketType.topic_sensors_resp 0 (sensors_document topic [])
        else do
          client ← reads (λ w. (w.objects h).client_id)
          sent ← catches false (do
            sensors ← calls (get_topic_sensors_config r topic client)
            sending_document json h PacketType.topic_sensors_resp 0 (sensors_document topic sensors)
            ret true)
          if sent
              then ret tt
              else sending_document json h PacketType.topic_sensors_resp 0
                  (sensors_document topic [])
