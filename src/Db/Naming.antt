-- ===== src/Db/Naming.antt =====
-- The names of topics: what the broker takes for the owner, and what the database stores.
use tinymq_broker.Base.{
  ℕ, suc, ◌-◌, ◌≡◌, ◌≢◌, refl, sym, ap, ◌∙◌, Bytes, true, false, none, some, [], ◌∷◌, ◌++◌, ◌==◌,
  nat_equality, bytes_equality, beq_self, bytes_beq, bytes_beq_iff, has_row-append, length, take,
  codes, split_at, starts_with, All, length-append, arith, take-append_length, drop-append_length,
}
use tinymq_broker.Db.Tables.{Topic, Server, rollback, transaction}
use tinymq_broker.Db.Names.{clean_name, pure_name, stored_name}
use tinymq_broker.Db.Topics.{
  topic_row, register_topic, register_topic_body, get_topic_id, id_of_name,
}
use tinymq_broker.Broker.Names.{extract_client_id}

abbrev pub slash : ℕ
slash = b'/'

abbrev pub HasNoSlash : Bytes → Type 0
HasNoSlash = All (λ c. c ≢ slash)

split_at-first :
    (owner rest : Bytes)
    → HasNoSlash owner
    → split_at slash (owner ++ slash ∷ rest) ≡ some (owner, rest)
unfolding split_at
split_at-first [] rest h = refl
split_at-first (c ∷ owner) rest h = ground (arith, split_at-first owner rest h.1)

-- The owner of `owner/rest` is `owner`, if that has no slash and the topic does not begin with
-- `["`.
pub extract_client_id-plain :
    (owner rest : Bytes)
    → HasNoSlash owner
    → starts_with (codes "[\"") (owner ++ slash ∷ rest) ≡ false
    → extract_client_id (owner ++ slash ∷ rest) ≡ owner
unfolding extract_client_id
extract_client_id-plain owner rest h p = ground (arith, p, split_at-first owner rest h)

-- The owner of `["owner/rest` is `owner`, if that has no slash.
pub extract_client_id-quoted :
    (owner rest : Bytes)
    → HasNoSlash owner
    → extract_client_id (codes "[\"" ++ (owner ++ slash ∷ rest)) ≡ owner
unfolding extract_client_id starts_with
extract_client_id-quoted owner rest h = ground (arith, split_at-first owner rest h)

pure_name-first : (owner rest : Bytes) → HasNoSlash owner → pure_name (owner ++ slash ∷ rest) ≡ rest
unfolding pure_name
pure_name-first owner rest h = rw (split_at-first owner rest h, pure_name)

clean_name-plain : (name : Bytes) → take 2 name ≢ codes "[\"" → clean_name name ≡ name
unfolding clean_name
clean_name-plain name p = ground (arith, bytes_beq_iff (take 2 name) (codes "[\""))

quoted_length :
    (name : Bytes)
    → length (codes "[\"" ++ (name ++ codes "\"]")) ≡ suc (suc (suc (suc (length name))))
quoted_length name = omega (arith, length-append name (codes "\"]"))

sub_2 : (n : ℕ) → suc (suc (suc (suc n))) - 2 ≡ suc (suc n)
sub_2 n = omega arith

sub_4 : (n : ℕ) → suc (suc (suc (suc n))) - 4 ≡ n
sub_4 n = omega arith

clean_name-quoted : (name : Bytes) → clean_name (codes "[\"" ++ (name ++ codes "\"]")) ≡ name
unfolding clean_name bytes_beq
clean_name-quoted name =
    rw (quoted_length name, clean_name)
      (rw
        (
          sub_2 (length name),
          sub_4 (length name),
          drop-append_length name (codes "\"]"),
          clean_name,
        )
        (ground (arith, take-append_length name (codes "\"]"))))

-- The topic name `owner/rest` is stored as `rest`, if `owner` has no slash and the name does not
-- begin with `["`.
pub stored_name-plain :
    (owner rest : Bytes)
    → HasNoSlash owner
    → take 2 (owner ++ slash ∷ rest) ≢ codes "[\""
    → stored_name (owner ++ slash ∷ rest) ≡ rest
unfolding stored_name
stored_name-plain owner rest h p =
    ap pure_name (clean_name-plain _ p) ∙ pure_name-first owner rest h

-- The quoted form `["owner/rest"]` is stored as `rest` too, if `owner` has no slash.
pub stored_name-quoted :
    (owner rest : Bytes)
    → HasNoSlash owner
    → stored_name (codes "[\"" ++ ((owner ++ slash ∷ rest) ++ codes "\"]")) ≡ rest
unfolding stored_name
stored_name-quoted owner rest h =
    ap pure_name (clean_name-quoted (owner ++ slash ∷ rest)) ∙ pure_name-first owner rest h

register_topic-row :
    (topic owner : Bytes) (s : Server)
    → (register_topic topic owner s).0 ≡ true
    → topic_row (register_topic topic owner s).1.tables (stored_name topic) ≡ true
unfolding register_topic register_topic_body transaction topic_row
register_topic-row topic owner s e = ground (
  arith,
  has_row-append (λ (t : Topic). t.name == stored_name topic) s.tables.topics
      (record {
        id = s.tables.next_topic;
        name = stored_name topic;
        owner_client_id = owner;
        created_at = s.clock;
        publish = false;
      })
      (beq_self (stored_name topic)),
)

-- Registering a name that is stored already changes no row, whoever asks.
register_topic_again :
    (topic owner : Bytes) (s : Server)
    → topic_row s.tables (stored_name topic) ≡ true
    → (register_topic topic owner s).1.tables ≡ s.tables
unfolding register_topic register_topic_body transaction
register_topic_again topic owner s e = ground arith

-- Topics of two owners with the same last part are one row: once `a/rest` is registered by `a`,
-- registering `b/rest` by `b` changes no table, and both names then have the same id. The owners
-- have no slash, and the names do not begin with `["`.
pub owners_share_topic :
    (a b rest : Bytes) (s : Server)
    → HasNoSlash a
    → HasNoSlash b
    → take 2 (a ++ slash ∷ rest) ≢ codes "[\""
    → take 2 (b ++ slash ∷ rest) ≢ codes "[\""
    → (register_topic (a ++ slash ∷ rest) a s).0 ≡ true
    → let s' = (register_topic (a ++ slash ∷ rest) a s).1 in
      ((register_topic (b ++ slash ∷ rest) b s').1.tables ≡ s'.tables)
      × ((get_topic_id (b ++ slash ∷ rest) s').0 ≡ (get_topic_id (a ++ slash ∷ rest) s').0)
unfolding get_topic_id
owners_share_topic a b rest s ha hb pa pb e =
    let same : stored_name (b ++ slash ∷ rest) ≡ stored_name (a ++ slash ∷ rest) =
      stored_name-plain b rest hb pb ∙ sym (stored_name-plain a rest ha pa) in
    let s' = (register_topic (a ++ slash ∷ rest) a s).1 in
    (
      register_topic_again (b ++ slash ∷ rest) b s'
          (rw same (register_topic-row (a ++ slash ∷ rest) a s e)),
      ap (λ n. (transaction none (λ now db. rollback (id_of_name db n)) s').0) same,
    )
