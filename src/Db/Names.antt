-- ===== src/Db/Names.antt =====
-- The topic names that src/db_manager.cpp stores: register_topic, set_topic_publish and
-- get_topic_id clean the name in the same lines.
use tinymq_broker.Base.{
  ◌-◌, Bytes, ◌&&◌, none, some, codes, split_at, length, take, drop, ltb, not, ◌==◌, bytes_equality,
  if◌then◌else◌,
}

-- `["name"]` becomes `name`.
unfoldable pub clean_name : Bytes → Bytes
clean_name name =
    let quoted =
      not (ltb (length name) 4)
      && take 2 name == codes "[\""
      && drop (length name - 2) name == codes "\"]" in
    if quoted then take (length name - 4) (drop 2 name) else name

-- What follows the first slash, or the whole name where there is none.
unfoldable pub pure_name : Bytes → Bytes
pure_name clean = elim (split_at b'/' clean) [ none ↦ clean | some p ↦ p.1 ]

unfoldable pub stored_name : Bytes → Bytes
unfolding clean_name pure_name
stored_name name = pure_name (clean_name name)
