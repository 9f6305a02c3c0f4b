-- ===== src/Db/Recorded.antt =====
-- That topics and subscriptions which src/db_manager.cpp has stored are found again.
use tinymq_broker.Base.{
  ◌≡◌, refl, ap, ◌∙◌, inl, inr, Bytes, Bool, true, false, some, none, ◌&&◌, List, [], ◌∷◌, ◌++◌,
  ◌==◌, nat_equality, bytes_equality, nat_beq_iff, beq_self, List-cases, Bool-cases, select,
  has_row, has_row-append, has_row-update, has_row-selected, selected-holds, select-append, arith,
}
use tinymq_broker.Db.Tables.{Topic, Subscription, Tables, Server, transaction}
use tinymq_broker.Db.Names.{stored_name}
use tinymq_broker.Db.Clients.{client_row}
use tinymq_broker.Db.Topics.{
  topic_row, register_topic, register_topic_body, id_of_name, get_topic_id,
}
use tinymq_broker.Db.Subscriptions.{
  topic_with_id, subscription_of, add_subscription, add_subscription_body, subscribed_row,
}

abbrev pub has_name : Bytes → Topic → Bool
has_name name t = t.name == name

module _ (id name : Bytes) (db : Tables) where
  -- The condition of `is_client_subscribed`.
  abbrev is_recorded : Subscription → Bool
  is_recorded r =
      has_row (λ (x : Topic). r.topic_id == x.id && x.name == name) db.topics
      && r.client_id == id
      && r.active

module _ (id name : Bytes) (t : Topic) (ts : List Topic) (db : Tables) where
  active-recorded :
      (r : Subscription)
      → select (has_name name) db.topics ≡ t ∷ ts
      → subscription_of id t.id r ≡ true
      → r.active ≡ true
      → is_recorded id name db r ≡ true
  unfolding subscription_of
  active-recorded r found mine active =
      let there : has_row (λ (x : Topic). r.topic_id == x.id && x.name == name) db.topics ≡ true =
        has_row-selected (has_name name) (λ x. r.topic_id == x.id && x.name == name) db.topics t ts
          found (ground (arith, selected-holds (has_name name) db.topics t ts found)) in
      ground arith

module _ (id name : Bytes) (t : Topic) (ts : List Topic) (s : Server) where
  -- A subscription of a known client to a topic in the table.
  pub add_subscription-Recorded :
      s.faults ≡ []
      → client_row s.tables id ≡ true
      → select (has_name name) s.tables.topics ≡ t ∷ ts
      → ((add_subscription id t.id s).0 ≡ true)
        × (subscribed_row (add_subscription id t.id s).1.tables id name ≡ true)
  unfolding transaction add_subscription add_subscription_body subscribed_row
  add_subscription-Recorded f known found =
      let there : topic_with_id s.tables t.id ≡ true =
        has_row-selected (has_name name) (λ x. x.id == t.id) s.tables.topics t ts found
          (ground (arith, nat_beq_iff t.id t.id)) in
      elim (List-cases (select (subscription_of id t.id) s.tables.subscriptions)) [
        | inl none_old ↦
            let added : Subscription = record {
              id = s.tables.next_subscription;
              client_id = id;
              topic_id = t.id;
              subscribed_at = s.clock;
              active = true;
            } in
            let new = has_row-append (is_recorded id name s.tables) s.tables.subscriptions added (
              active-recorded id name t ts s.tables added found
                (ground (arith, subscription_of, beq_self id, nat_beq_iff t.id t.id)) refl) in
            (ground arith, ground arith)
        | inr (old, olds, e) ↦ elim (Bool-cases old.active) [
          | inl active ↦
              let same =
                has_row-selected (subscription_of id t.id) (is_recorded id name s.tables)
                  s.tables.subscriptions old olds e
                  (active-recorded id name t ts s.tables old found
                    (selected-holds (subscription_of id t.id) s.tables.subscriptions old olds e)
                    active) in
              (ground arith, ground arith)
          | inr inactive ↦
              let renewed =
                has_row-update (subscription_of id t.id) (is_recorded id name s.tables)
                  (λ r. record r { active = true; subscribed_at = s.clock }) s.tables.subscriptions
                  (λ r mine.
                    active-recorded id name t ts s.tables
                      (record r { active = true; subscribed_at = s.clock }) found
                      (ground (arith, subscription_of)) refl)
                  (ground arith) in
              (ground arith, ground arith)
        ]
      ]

-- The topic that `get_topic_id` finds, as a row.
pub get_topic_id-found :
    (topic : Bytes) (t : Topic) (ts : List Topic) (s : Server)
    → s.faults ≡ []
    → select (has_name (stored_name topic)) s.tables.topics ≡ t ∷ ts
    → let r = get_topic_id topic s in
      (r.0 ≡ some t.id) × (r.1.faults ≡ []) × (r.1.tables ≡ s.tables)
unfolding transaction get_topic_id id_of_name
get_topic_id-found topic t ts s f found = (ground arith, ground arith, ground arith)

pub get_topic_id-missing :
    (topic : Bytes) (s : Server)
    → s.faults ≡ []
    → select (has_name (stored_name topic)) s.tables.topics ≡ []
    → let r = get_topic_id topic s in (r.0 ≡ none) × (r.1.faults ≡ []) × (r.1.tables ≡ s.tables)
unfolding transaction get_topic_id id_of_name
get_topic_id-missing topic s f missing = (ground arith, ground arith, ground arith)

-- A new topic of a known owner.
abbrev pub added_topic : Bytes → Bytes → Server → Topic
added_topic topic owner s = record {
  id = s.tables.next_topic;
  name = stored_name topic;
  owner_client_id = owner;
  created_at = s.clock;
  publish = false;
}

added-found :
    (name : Bytes) (rows : List Topic) (t : Topic)
    → t.name ≡ name
    → select (has_name name) rows ≡ []
    → select (has_name name) (rows ++ t ∷ []) ≡ t ∷ []
unfolding select
added-found name rows t e missing =
    select-append (has_name name) rows (t ∷ []) ∙ ground (arith, beq_self name, missing)

pub register_topic-adds :
    (topic owner : Bytes) (s : Server)
    → s.faults ≡ []
    → client_row s.tables owner ≡ true
    → select (has_name (stored_name topic)) s.tables.topics ≡ []
    → let done = register_topic topic owner s in
      (done.0 ≡ true)
      × (done.1.faults ≡ [])
      × (done.1.tables.clients ≡ s.tables.clients)
      × (select (has_name (stored_name topic)) done.1.tables.topics
          ≡ added_topic topic owner s ∷ [])
unfolding transaction register_topic register_topic_body topic_row
register_topic-adds topic owner s f known missing =
    let topics : (register_topic topic owner s).1.tables.topics
        ≡ s.tables.topics ++ added_topic topic owner s ∷ [] =
      ground arith in
    (
      ground arith,
      ground arith,
      ground arith,
      ap (select (has_name (stored_name topic))) topics
          ∙ added-found (stored_name topic) s.tables.topics (added_topic topic owner s) refl
              missing,
    )
