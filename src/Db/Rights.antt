-- ===== src/Db/Rights.antt =====
-- Who may change a topic, and what an answer to an admin request does.
use tinymq_broker.Base.{
  ◌≡◌, inl, inr, Bytes, Bool, true, false, List, [], ◌∷◌, nat_equality, bytes_equality, nat_beq_iff,
  select_stronger, select_none, has_row, has_row-false, Bool-cases, refl, ◌==◌, ◌&&◌, List-cases,
  select, delete_where, select-append, select-delete_self, arith,
}
use tinymq_broker.Db.Tables.{Tables, Topic, TopicAdmin, Server, transaction}
use tinymq_broker.Db.Topics.{owned_by}
use tinymq_broker.Db.Admins.{
  admin_is, admin_row, withdraw, resign_admin_status, resign_admin_status_body, topic_named,
  admin_of, insert_admin, is_topic_admin, respond_to_admin_request, respond_to_admin_request_body,
  revoke_admin_status, revoke_admin_status_body, add_topic_admin, add_topic_admin_body,
}
use tinymq_broker.Db.Sensors.{set_sensor_status, set_sensor_status_body}
use tinymq_broker.Db.Invariant.{IsUnique}

abbrev pub Refused : Bool × Server → Server → Type 0
Refused r s = (r.0 ≡ false) × (r.1.tables ≡ s.tables)

set_sensor_status-Refused :
    (topic sensor client : Bytes) (b : Bool) (s : Server)
    → is_topic_admin s.tables topic client ≡ false
    → Refused (set_sensor_status topic sensor client b s) s
unfolding transaction set_sensor_status set_sensor_status_body
set_sensor_status-Refused topic sensor client b s e = ground arith

-- Where one row alone meets `q`, a row that meets the stronger `p` is that one.
only-holds :
    {A : Type 0} (p q : A → Bool) (xs : List A) (r : A)
    → ((x : A) → p x ≡ true → q x ≡ true)
    → select q xs ≡ r ∷ []
    → has_row p xs ≡ true
    → p r ≡ true
unfolding select
only-holds p q [] r h e f = cc
only-holds p q (x ∷ xs) r h e f = grind (arith, h x, select_none p q xs h, only-holds p q xs r h)

-- The row of topic_admins that `is_topic_admin` looks for is one of the one topic of the name.
admin_row-is :
    (topic client : Bytes) (t : Topic) (db : Tables) (a : TopicAdmin)
    → select (topic_named topic) db.topics ≡ t ∷ []
    → has_row (λ (x : Topic). a.topic_id == x.id && topic_named topic x) db.topics
        && a.admin_client_id == client
      ≡ true
    → admin_is t.id client a ≡ true
unfolding admin_is
admin_row-is topic client t db a found h =
    let at : a.topic_id == t.id && topic_named topic t ≡ true =
      only-holds (λ (x : Topic). a.topic_id == x.id && topic_named topic x) (topic_named topic)
        db.topics t (λ x k. ground arith) found (ground arith) in
    ground arith

-- Without a grant for the one topic of the name, a client is no administrator of it.
no_grant :
    (topic client : Bytes) (t : Topic) (db : Tables)
    → select (topic_named topic) db.topics ≡ t ∷ []
    → select (admin_is t.id client) db.topic_admins ≡ []
    → is_topic_admin db topic client ≡ false
unfolding is_topic_admin admin_row
no_grant topic client t db found none_left =
    let e =
      select_none
        (λ (a : TopicAdmin).
          has_row (λ (x : Topic). a.topic_id == x.id && topic_named topic x) db.topics
          && a.admin_client_id == client)
        (admin_is t.id client) db.topic_admins (λ a h. admin_row-is topic client t db a found h)
        none_left in
    rw e refl

pub owned_by-named :
    (topic owner : Bytes) (t : Topic) → owned_by topic owner t ≡ true → topic_named topic t ≡ true
unfolding owned_by topic_named
owned_by-named topic owner t h = ground arith

module _ (topic owner requester : Bytes) (s : Server) where
  abbrev pub granted : Topic → TopicAdmin
  granted t = record { topic_id = t.id; admin_client_id = requester; granted_at = s.clock }

  -- An approval that succeeds is one by an owner of the topic, and leaves the requester as the
  -- only administrator of the topic, whoever administered it before; the topics are as before.
  pub approval_sole_admin :
      (respond_to_admin_request topic owner requester true s).0 ≡ true
      → let tables = (respond_to_admin_request topic owner requester true s).1.tables in
        (t : Topic) × (ts : List Topic) × (select (owned_by topic owner) s.tables.topics ≡ t ∷ ts)
        × (select (admin_of t.id) tables.topic_admins ≡ granted t ∷ [])
        × (tables.topics ≡ s.tables.topics)
  unfolding transaction respond_to_admin_request respond_to_admin_request_body insert_admin select
      admin_of
  approval_sole_admin e = elim (List-cases (select (owned_by topic owner) s.tables.topics)) [
    | inl none_owned ↦ absurd (ground arith)
    | inr (t, ts, owned) ↦ (
      t,
      ts,
      owned,
      ground (
        arith,
        nat_beq_iff t.id t.id,
        select-append (admin_of t.id) (delete_where (admin_of t.id) s.tables.topic_admins)
            (granted t ∷ []),
        select-delete_self (admin_of t.id) s.tables.topic_admins,
      ),
      ground arith,
    )
  ]

  -- After an approval that succeeded on unique tables (`IsUnique`), `add_topic_admin` for the same
  -- topic and requester returns false and changes no table.
  pub add_topic_admin_after_approval :
      IsUnique s.tables
      → (respond_to_admin_request topic owner requester true s).0 ≡ true
      → Refused
          (add_topic_admin topic requester
            (respond_to_admin_request topic owner requester true s).1)
          (respond_to_admin_request topic owner requester true s).1
  unfolding transaction add_topic_admin add_topic_admin_body
  add_topic_admin_after_approval u e =
      let (t, ts, owned, sole, same) = approval_sole_admin e in
      let found : select (topic_named topic) s.tables.topics ≡ t ∷ [] =
        select_stronger (owned_by topic owner) (topic_named topic) s.tables.topics t ts
          (owned_by-named topic owner) (u.topics.names topic) owned in
      (ground arith, ground arith)

-- A call after which a client no longer administers the topic: the owner revokes it, the client
-- resigns, or the owner approves the request of another.
pub data Ends (topic client : Bytes) (s : Server) : Server → Type 0 where
  revoked :
      (owner : Bytes)
      → (revoke_admin_status topic owner client s).0 ≡ true
      → Ends topic client s (revoke_admin_status topic owner client s).1
  resigned :
      (resign_admin_status topic client s).0 ≡ true
      → Ends topic client s (resign_admin_status topic client s).1
  superseded :
      (owner other : Bytes)
      → other == client ≡ false
      → (respond_to_admin_request topic owner other true s).0 ≡ true
      → Ends topic client s (respond_to_admin_request topic owner other true s).1

module _ (topic client : Bytes) (s : Server) where
  revoked-no_grant :
      (owner : Bytes)
      → IsUnique s.tables
      → (revoke_admin_status topic owner client s).0 ≡ true
      → is_topic_admin (revoke_admin_status topic owner client s).1.tables topic client ≡ false
  unfolding transaction revoke_admin_status revoke_admin_status_body withdraw
  revoked-no_grant owner u e = elim (List-cases (select (owned_by topic owner) s.tables.topics)) [
    | inl none_owned ↦ absurd (ground arith)
    | inr (t, ts, owned) ↦
        let found : select (topic_named topic) s.tables.topics ≡ t ∷ [] =
          select_stronger (owned_by topic owner) (topic_named topic) s.tables.topics t ts
            (owned_by-named topic owner) (u.topics.names topic) owned in
        no_grant topic client t _ (ground arith)
          (ground (arith, select-delete_self (admin_is t.id client) s.tables.topic_admins))
  ]

  resigned-no_grant :
      IsUnique s.tables
      → (resign_admin_status topic client s).0 ≡ true
      → is_topic_admin (resign_admin_status topic client s).1.tables topic client ≡ false
  unfolding transaction resign_admin_status resign_admin_status_body withdraw
  resigned-no_grant u e = elim (List-cases (select (topic_named topic) s.tables.topics)) [
    | inl none_named ↦ absurd (ground arith)
    | inr (t, ts, named) ↦
        let found : select (topic_named topic) s.tables.topics ≡ t ∷ [] =
          select_stronger (topic_named topic) (topic_named topic) s.tables.topics t ts (λ x h. h)
            (u.topics.names topic) named in
        no_grant topic client t _ (ground arith)
          (ground (arith, select-delete_self (admin_is t.id client) s.tables.topic_admins))
  ]

  -- The only grant is that of another client.
  other_grant :
      (other : Bytes) (t : Topic) (admins : List TopicAdmin)
      → other == client ≡ false
      → select (admin_of t.id) admins ≡ granted topic topic other s t ∷ []
      → select (admin_is t.id client) admins ≡ []
  unfolding admin_is admin_of
  other_grant other t admins n e = elim (Bool-cases (has_row (admin_is t.id client) admins)) [
    | inl h ↦
        let k =
          only-holds (admin_is t.id client) (admin_of t.id) admins _ (λ x i. ground arith) e h in
        absurd (ground arith)
    | inr h ↦ has_row-false (admin_is t.id client) admins h
  ]

  superseded-no_grant :
      (owner other : Bytes)
      → IsUnique s.tables
      → other == client ≡ false
      → (respond_to_admin_request topic owner other true s).0 ≡ true
      → is_topic_admin (respond_to_admin_request topic owner other true s).1.tables topic client
        ≡ false
  superseded-no_grant owner other u n e =
      let (t, ts, owned, sole, same) = approval_sole_admin topic owner other s e in
      let found : select (topic_named topic) s.tables.topics ≡ t ∷ [] =
        select_stronger (owned_by topic owner) (topic_named topic) s.tables.topics t ts
          (owned_by-named topic owner) (u.topics.names topic) owned in
      no_grant topic client t _ (rw same found) (other_grant other t _ n sole)

  -- On unique tables (`IsUnique`), a client whose administration of a topic has just ended (`Ends`), be
  -- it the owner of the topic, cannot set a sensor of it: the call returns false and leaves the tables.
  pub rights_end :
      {v : Server} (sensor : Bytes) (b : Bool)
      → IsUnique s.tables
      → Ends topic client s v
      → Refused (set_sensor_status topic sensor client b v) v
  rights_end sensor b u (revoked owner e) =
      set_sensor_status-Refused topic sensor client b _ (revoked-no_grant owner u e)
  rights_end sensor b u (resigned e) =
      set_sensor_status-Refused topic sensor client b _ (resigned-no_grant u e)
  rights_end sensor b u (superseded owner other n e) =
      set_sensor_status-Refused topic sensor client b _ (superseded-no_grant owner other u n e)
