-- ===== src/Broker/Quiet.antt =====
-- Actions that only use the database and the id cache, such as the log of a published message.
use tinymq_broker.Base.{inl, inr, Option-cases, Bool-cases, lookup, ◌≡◌, refl, Bytes, none, some}
use tinymq_broker.Db.Topics.{get_topic_id, register_topic}
use tinymq_broker.Broker.World.{World, ok, M, ◌>>=◌, ◌>>◌, gets, database, modify}
use tinymq_broker.Broker.Publish.{cache_id, published_topic_id, log_published}

abbrev pub SameLinks : World → World → Type 0
SameLinks v w =
    (v.objects ≡ w.objects)
    × (v.sessions ≡ w.sessions)
    × (v.topic_subscribers ≡ w.topic_subscribers)
    × (v.wire ≡ w.wire)

-- The action returns, and changes no link.
abbrev pub Quiet {ℓ} : {A : Type ℓ} → M A → Type ℓ
Quiet {A = A} m = (w : World) → ((a : A) × ((m w).0 ≡ ok a)) × SameLinks (m w).1 w

published_topic_id-Quiet : (topic publisher : Bytes) → Quiet (published_topic_id topic publisher)
unfolding published_topic_id cache_id ◌>>=◌ ◌>>◌ gets database modify
published_topic_id-Quiet topic publisher w =
    let s1 = (get_topic_id topic w.server).1 in
    let s2 = (register_topic topic publisher s1).1 in
    elim (Option-cases (lookup topic w.topic_id_cache)) [
      | inr (id, e) ↦ rw e ((some id, refl), (refl, refl, refl, refl))
      | inl e ↦ elim (Option-cases (get_topic_id topic w.server).0) [
        | inr (id, f) ↦ rw (e, f) ((some id, refl), (refl, refl, refl, refl))
        | inl f ↦ elim (Bool-cases (register_topic topic publisher s1).0) [
          | inr g ↦ rw (e, f, g) ((none, refl), (refl, refl, refl, refl))
          | inl g ↦ elim (Option-cases (get_topic_id topic s2).0) [
            | inl h ↦ rw (e, f, g, h) ((none, refl), (refl, refl, refl, refl))
            | inr (id, h) ↦ rw (e, f, g, h) ((some id, refl), (refl, refl, refl, refl))
          ]
        ]
      ]
    ]

pub log_published-Quiet :
    (publisher topic message : Bytes) → Quiet (log_published publisher topic message)
unfolding log_published ◌>>=◌ ◌>>◌ gets database modify
log_published-Quiet publisher topic message w =
    let q = published_topic_id-Quiet topic publisher w in
    elim (Option-cases q.0.0) [
      | inl e ↦ rw (q.0.1, e) ((tt, refl), q.1)
      | inr (id, e) ↦ rw (q.0.1, e) ((tt, refl), q.1)
    ]
