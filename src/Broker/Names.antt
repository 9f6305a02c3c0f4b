-- ===== src/Broker/Names.antt =====
-- `extract_client_id_from_topic` of src/broker.cpp.
use tinymq_broker.Base.{
  Bytes, none, some, [], nat_equality, bytes_equality, if◌then◌else◌, drop, codes, split_at,
  starts_with,
}

-- The text before the first slash, after `["` where the topic starts with it; "" without a slash.
unfoldable pub extract_client_id : Bytes → Bytes
extract_client_id topic =
    let body = if starts_with (codes "[\"") topic then drop 2 topic else topic in
    elim (split_at b'/' body) [ none ↦ [] | some p ↦ p.0 ]
