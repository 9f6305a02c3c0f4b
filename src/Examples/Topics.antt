-- ===== src/Examples/Topics.antt =====
-- Topic names of two owners.
use tinymq_broker.Base.{
  ◌≡◌, refl, true, codes, nat_equality, bytes_equality, bytes_beq, select, arith, split_at,
}
use tinymq_broker.Db.Tables.{transaction}
use tinymq_broker.Db.Topics.{register_topic, register_topic_body, get_topic_id}
use tinymq_broker.Db.Naming.{HasNoSlash, owners_share_topic}
use tinymq_broker.Examples.Samples.{sample_server}

a-HasNoSlash : HasNoSlash (codes "a")
a-HasNoSlash = ((λ e. absurd (omega arith)), tt)

b-HasNoSlash : HasNoSlash (codes "b")
b-HasNoSlash = ((λ e. absurd (omega arith)), tt)

a_registers : (register_topic (codes "a/u") (codes "a") sample_server).0 ≡ true
unfolding transaction register_topic register_topic_body bytes_beq select split_at
a_registers = refl

owners_share_topic_example :
    let s = (register_topic (codes "a/u") (codes "a") sample_server).1 in
    ((register_topic (codes "b/u") (codes "b") s).1.tables ≡ s.tables)
    × ((get_topic_id (codes "b/u") s).0 ≡ (get_topic_id (codes "a/u") s).0)
owners_share_topic_example =
    owners_share_topic (codes "a") (codes "b") (codes "u") sample_server a-HasNoSlash b-HasNoSlash
      (λ e. cc) (λ e. cc) a_registers
