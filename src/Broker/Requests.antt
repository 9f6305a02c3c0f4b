-- ===== src/Broker/Requests.antt =====
-- `handle_admin_request` of src/broker.cpp compares the name as it was sent with the stored names.
use tinymq_broker.Base.{
  ℕ, ◌≡◌, refl, ap, ◌∙◌, Bytes, String, false, List, [], ◌∷◌, ◌++◌, ◌==◌, nat_equality,
  bytes_equality, bytes_beq, has_row, All, arith, select,
}
use tinymq_broker.Packet.Types.{PacketType}
use tinymq_broker.Db.Tables.{Topic, Tables, Server, rollback, transaction}
use tinymq_broker.Db.Clients.{client_exists}
use tinymq_broker.Db.Topics.{topic_row, topic_exists}
use tinymq_broker.Db.Admins.{check_admin_request_status}
use tinymq_broker.Db.Naming.{slash, HasNoSlash}
use tinymq_broker.Broker.World.{Handle, World, Json, Document, ◌>>=◌, gets, database, send_packet}
use tinymq_broker.Broker.Names.{extract_client_id}
use tinymq_broker.Broker.Notify.{
  ErrorCode, topic_not_found, self_request, already_pending, requester_not_found, owner_not_found,
  error_document, send_document, send_to_client, notify_admin_request_error,
}
use tinymq_broker.Broker.Admin.{check_topic, check_clients, check_request, handle_admin_request}

differ : (owner rest name : Bytes) → HasNoSlash name → (name == (owner ++ slash ∷ rest)) ≡ false
unfolding bytes_beq
differ [] rest [] h = refl
differ [] rest (c ∷ name) h = ground arith
differ (o ∷ owner) rest [] h = refl
differ (o ∷ owner) rest (c ∷ name) h = ground (arith, differ owner rest name h.1)

no_row :
    (owner rest : Bytes) (rows : List Topic)
    → All (λ (t : Topic). HasNoSlash t.name) rows
    → has_row (λ (t : Topic). t.name == (owner ++ slash ∷ rest)) rows ≡ false
unfolding select
no_row owner rest [] h = refl
no_row owner rest (t ∷ rows) h =
    ground (arith, differ owner rest t.name h.0, no_row owner rest rows h.1)

-- The reads give the tables back.
read_tables {ℓ} :
    {A : Type ℓ} (failed : A) (q : ℕ → Tables → A) (s : Server)
    → (transaction failed (λ now db. rollback (q now db)) s).1.tables ≡ s.tables
unfolding transaction
read_tables failed q s = ground arith

tables-topic_exists : (topic : Bytes) (s : Server) → (topic_exists topic s).1.tables ≡ s.tables
unfolding topic_exists
tables-topic_exists topic s = read_tables _ _ s

tables-client_exists : (id : Bytes) (s : Server) → (client_exists id s).1.tables ≡ s.tables
unfolding client_exists
tables-client_exists id s = read_tables _ _ s

tables-check_status :
    (topic id : Bytes) (s : Server) → (check_admin_request_status topic id s).1.tables ≡ s.tables
unfolding check_admin_request_status
tables-check_status topic id s = read_tables _ _ s

topic_exists-false :
    (topic : Bytes) (s : Server)
    → topic_row s.tables topic ≡ false
    → (topic_exists topic s).0 ≡ false
unfolding topic_exists transaction
topic_exists-false topic s e = ground arith

module _ (json : Json) where
  server-send_to_client :
      (id : Bytes) (t : PacketType) (n : ℕ) (d : Document) (w : World)
      → (send_to_client json id t n d w).1.server ≡ w.server
  unfolding send_to_client send_document send_packet ◌>>=◌ gets
  server-send_to_client id t n d w = ground arith

  server-notify :
      (id topic : Bytes) (e : ErrorCode) (s : String) (w : World)
      → (notify_admin_request_error json id topic e s w).1.server ≡ w.server
  unfolding notify_admin_request_error ◌>>=◌ gets
  server-notify id topic e s w = ground (
    arith,
    server-send_to_client id PacketType.admin_req_ack 1 (error_document topic e s w.time) w,
  )

  tables-check_topic :
      (h : Handle) (id topic owner : Bytes) (w : World)
      → topic_row w.server.tables topic ≡ false
      → (check_topic json h id topic owner w).1.server.tables ≡ w.server.tables
  unfolding check_topic ◌>>=◌ database
  tables-check_topic h id topic owner w e = rw (topic_exists-false topic w.server e) (
      ap (λ s. s.tables)
        (server-notify id topic topic_not_found "El tópico no existe"
          (record w { server = (topic_exists topic w.server).1 }))
      ∙ tables-topic_exists topic w.server)

  tables-check_clients :
      (h : Handle) (id topic owner : Bytes) (w : World)
      → topic_row w.server.tables topic ≡ false
      → (check_clients json h id topic owner w).1.server.tables ≡ w.server.tables
  unfolding check_clients ◌>>=◌ database
  tables-check_clients h id topic owner w e =
      let s1 = (client_exists id w.server).1 in
      let s2 = (client_exists owner s1).1 in
      let w1 : World = record w { server = s1 } in
      let w2 : World = record w { server = s2 } in
      ground (
        arith,
        tables-client_exists id w.server,
        tables-client_exists owner s1,
        server-notify id topic requester_not_found "El solicitante no existe en el sistema" w1,
        server-notify id topic owner_not_found "El propietario del tópico no existe" w2,
        tables-check_topic h id topic owner w2,
      )

  tables-check_request :
      (h : Handle) (id topic owner : Bytes) (w : World)
      → topic_row w.server.tables topic ≡ false
      → (check_request json h id topic owner w).1.server.tables ≡ w.server.tables
  unfolding check_request ◌>>=◌ database
  tables-check_request h id topic owner w e =
      let w1 : World = record w { server = (check_admin_request_status topic id w.server).1 } in
      ground (
        arith,
        tables-check_status topic id w.server,
        server-notify id topic self_request "No puedes solicitar administración de tu propio tópico"
            w,
        server-notify id topic already_pending
            "Ya tienes una solicitud pendiente para este tópico. Espera la respuesta del propietario."
            w1,
        tables-check_clients h id topic owner w1,
      )

  -- While no stored topic name has a slash, an ADMIN_REQ for a topic `owner/rest` changes no table,
  -- whoever asks for whatever topic: no such request is ever entered.
  pub admin_request_lost :
      (h : Handle) (owner rest : Bytes) (w : World)
      → All (λ (t : Topic). HasNoSlash t.name) w.server.tables.topics
      → (handle_admin_request json h (owner ++ slash ∷ rest) w).1.server.tables ≡ w.server.tables
  unfolding handle_admin_request ◌>>=◌ gets topic_row
  admin_request_lost h owner rest w plain =
      let topic = owner ++ slash ∷ rest in
      ground (
        arith,
        tables-check_request h (w.objects h).client_id topic (extract_client_id topic) w
            (no_row owner rest w.server.tables.topics plain),
      )
