-- ===== src/Broker/Recorded.antt =====
-- What `Broker::subscribe` of src/broker.cpp leaves in the database.
use tinymq_broker.Base.{
  ◌≡◌, refl, ap, ◌∙◌, inl, inr, Bytes, true, false, some, List, [], ◌∷◌, ◌==◌, nat_equality,
  bytes_equality, nat_beq_iff, beq_self, is_empty, List-cases, select, has_row, arith,
}
use tinymq_broker.Db.Tables.{Client, Topic, Server}
use tinymq_broker.Db.Names.{stored_name}
use tinymq_broker.Db.Clients.{client_row}
use tinymq_broker.Db.Topics.{get_topic_id, register_topic}
use tinymq_broker.Db.Subscriptions.{subscribed_row}
use tinymq_broker.Db.Recorded.{
  has_name, add_subscription-Recorded, get_topic_id-found, get_topic_id-missing,
  register_topic-adds, added_topic,
}
use tinymq_broker.Broker.World.{Handle, World, ok, ◌>>=◌, ◌>>◌, gets, database, modify}
use tinymq_broker.Broker.Names.{extract_client_id}
use tinymq_broker.Broker.Subscriptions.{topic_id_or_register, subscribe_in_database, subscribe}
use tinymq_broker.Broker.Subscribed.{is_subscribed, is_subscribed-subscribe}

-- A server without faults that knows the client, and on which the topic is found.
record IsFound (topic id : Bytes) (t : Topic) (ts : List Topic) (s : Server) : Type 0 where
  pub found : select (has_name (stored_name topic)) s.tables.topics ≡ t ∷ ts
  pub faults : s.faults ≡ []
  pub client : client_row s.tables id ≡ true

topic_id_or_register-IsFound :
    (topic owner id : Bytes) (w : World)
    → w.server.faults ≡ []
    → client_row w.server.tables owner ≡ true
    → client_row w.server.tables id ≡ true
    → (t : Topic) × (ts : List Topic) × ((topic_id_or_register topic owner w).0 ≡ ok (some t.id))
      × IsFound topic id t ts (topic_id_or_register topic owner w).1.server
unfolding topic_id_or_register ◌>>=◌ ◌>>◌ database client_row
topic_id_or_register-IsFound topic owner id w f owned known =
    elim (List-cases (select (has_name (stored_name topic)) w.server.tables.topics)) [
      | inr (t, ts, e) ↦
          let g = get_topic_id-found topic t ts w.server f e in
          (
            t,
            ts,
            rw g.0 refl,
            rw g.0 (record {
              found = ap (λ db. select (has_name (stored_name topic)) db.topics) g.2 ∙ e;
              faults = g.1;
              client = ap (λ db. client_row db id) g.2 ∙ known;
            }),
          )
      | inl e ↦
          let g = get_topic_id-missing topic w.server f e in
          let s1 = (get_topic_id topic w.server).1 in
          let r =
            register_topic-adds topic owner s1 g.1 (ap (λ db. client_row db owner) g.2 ∙ owned)
              (ap (λ db. select (has_name (stored_name topic)) db.topics) g.2 ∙ e) in
          let s2 = (register_topic topic owner s1).1 in
          let t = added_topic topic owner s1 in
          let k = get_topic_id-found topic t [] s2 r.1 r.3 in
          (
            t,
            [],
            rw (g.0, r.0) (ap ok k.0),
            rw (g.0, r.0)
                (record {
                  found = ap (λ db. select (has_name (stored_name topic)) db.topics) k.2 ∙ r.3;
                  faults = k.1;
                  client =
                      ap (λ db. client_row db id) k.2
                      ∙ ap (has_row (λ (c : Client). c.client_id == id)) r.2
                      ∙ ap (λ db. client_row db id) g.2
                      ∙ known;
                }),
          )
    ]

subscribe_in_database-Recorded :
    (id topic owner : Bytes) (w : World)
    → w.server.faults ≡ []
    → client_row w.server.tables owner ≡ true
    → client_row w.server.tables id ≡ true
    → ((subscribe_in_database id topic owner w).0 ≡ ok tt)
      × (subscribed_row
            (subscribe_in_database id topic owner w).1.server.tables
            id
            (stored_name topic)
          ≡ true)
unfolding subscribe_in_database ◌>>=◌ ◌>>◌ database
subscribe_in_database-Recorded id topic owner w f owned known =
    let (t, ts, answered, i) = topic_id_or_register-IsFound topic owner id w f owned known in
    let a =
      add_subscription-Recorded id (stored_name topic) t ts
        (topic_id_or_register topic owner w).1.server i.faults i.client i.found in
    rw answered (refl, a.1)

-- While no transaction fails for a reason outside the tables: if the broker has a database that knows
-- the session's client and the client whose id stands in front of the topic, then after `subscribe` the
-- topic has a row, registered now if it had none, the database has the subscription of the client to
-- it as an active one, and the session is subscribed in the broker's own map too.
pub subscribe-Recorded :
    (h : Handle) (topic : Bytes) (w : World)
    → w.has_database ≡ true
    → is_empty (extract_client_id topic) ≡ false
    → w.server.faults ≡ []
    → client_row w.server.tables (extract_client_id topic) ≡ true
    → client_row w.server.tables (w.objects h).client_id ≡ true
    → let v = (subscribe h topic w).1 in
      (subscribed_row v.server.tables (w.objects h).client_id (stored_name topic) ≡ true)
      × (is_subscribed v topic h ≡ true)
unfolding subscribe ◌>>=◌ ◌>>◌ gets modify
subscribe-Recorded h topic w db named f owned known =
    let a =
      subscribe_in_database-Recorded (w.objects h).client_id topic (extract_client_id topic) w f
        owned known in
    (
      ground (arith, a.0, a.1),
      is_subscribed-subscribe h h topic topic w ∙ ground (arith, beq_self topic, nat_beq_iff h h),
    )
