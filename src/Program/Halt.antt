-- ===== src/Program/Halt.antt =====
-- What becomes of the broker of src/broker.cpp after `stop`, and when its threads end.
use tinymq_broker.Base.{◌≡◌, refl, Bytes, List, [], Option, true, arith}
use tinymq_broker.Packet.{Packet}
use tinymq_broker.Db.Tables.{Tables}
use tinymq_broker.Db.Schema.{Postgres}
use tinymq_broker.Db.Listings.{Rendering}
use tinymq_broker.Broker.World.{Handle, Json}
use tinymq_broker.Broker.Lifecycle.{
  Pool, Machine, start_client_activity_check, open_database, launch, start, stop,
}
use tinymq_broker.Program.Life.{
  Step, Life, starts, stops, accepts, accept_fails, receives, loses, written, timer_ends,
  time_passes, begins, goes_on,
}

-- A stopped event loop without threads, and what is left of the world's parts that clients see.
pub record IsHalted (tables : Tables) (wire : List (Handle × Packet)) (m : Machine) : Type 0 where
  pub io_stopped : m.io_stopped ≡ true
  pub no_workers : m.workers ≡ 0
  pub no_sessions : m.world.sessions ≡ []
  pub no_topics : m.world.topic_subscribers ≡ []
  pub same_tables : m.world.server.tables ≡ tables
  pub same_wire : m.world.wire ≡ wire

module _ (tables : Tables) (wire : List (Handle × Packet)) where
  IsHalted-start :
      {S : Type 0} (pg : Postgres S) (schema_file : Option Bytes) (n : Pool) (m : Machine)
      → IsHalted tables wire m
      → IsHalted tables wire (start pg schema_file n m).1
  unfolding start launch open_database start_client_activity_check
  IsHalted-start pg schema_file n m i = record {
    io_stopped = ground (arith, i.io_stopped);
    no_workers = ground (arith, i.io_stopped, i.no_workers);
    no_sessions = ground (arith, i.no_sessions);
    no_topics = ground (arith, i.no_topics);
    same_tables = ground (arith, i.same_tables);
    same_wire = ground (arith, i.same_wire);
  }

  IsHalted-stop : (m : Machine) → IsHalted tables wire m → IsHalted tables wire (stop m)
  unfolding stop
  IsHalted-stop m i = record {
    io_stopped = ground (arith, i.io_stopped);
    no_workers = ground (arith, i.io_stopped, i.no_workers);
    no_sessions = ground (arith, i.no_sessions);
    no_topics = ground (arith, i.no_topics);
    same_tables = ground (arith, i.same_tables);
    same_wire = ground (arith, i.same_wire);
  }

module _ {S : Type 0} (json : Json) (r : Rendering) (pg : Postgres S) (schema_file : Option Bytes)
    (pool : Pool) where
  Step-IsHalted :
      {m n : Machine} (tables : Tables) (wire : List (Handle × Packet))
      → Step json r pg schema_file pool m n
      → IsHalted tables wire m
      → IsHalted tables wire n
  Step-IsHalted {m} tables wire starts i = IsHalted-start tables wire pg schema_file pool m i
  Step-IsHalted {m} tables wire stops i = IsHalted-stop tables wire m i
  Step-IsHalted {m} tables wire (accepts h e w a fresh) i = ground (arith, i.no_workers)
  Step-IsHalted {m} tables wire (accept_fails w a) i = ground (arith, i.no_workers)
  Step-IsHalted {m} tables wire (receives h p w d) i = ground (arith, i.no_workers)
  Step-IsHalted {m} tables wire (loses h w) i = ground (arith, i.no_workers)
  Step-IsHalted {m} tables wire (written failed h w) i = ground (arith, i.no_workers)
  Step-IsHalted {m} tables wire (timer_ends c w t) i = ground (arith, i.no_workers)
  Step-IsHalted {m} tables wire (time_passes t clock faults) i = record {
    io_stopped = i.io_stopped;
    no_workers = i.no_workers;
    no_sessions = i.no_sessions;
    no_topics = i.no_topics;
    same_tables = i.same_tables;
    same_wire = i.same_wire;
  }

  Life-keeps_IsHalted :
      {m n : Machine} (tables : Tables) (wire : List (Handle × Packet))
      → Life json r pg schema_file pool m n
      → IsHalted tables wire m
      → IsHalted tables wire n
  Life-keeps_IsHalted tables wire begins i = i
  Life-keeps_IsHalted tables wire (goes_on q e) i =
      Step-IsHalted tables wire e (Life-keeps_IsHalted tables wire q i)

  -- A broker that ran and was stopped serves no one ever after, whatever events follow and even if it
  -- is started again: no thread runs its event loop, no session is registered or subscribed, nothing
  -- is sent, and the tables of the database are as they were when it was stopped.
  pub stop_is_final :
      {n : Machine} (m : Machine)
      → m.running ≡ true
      → Life json r pg schema_file pool (stop m) n
      → IsHalted m.world.server.tables m.world.wire n
  unfolding stop
  stop_is_final m e q = Life-keeps_IsHalted m.world.server.tables m.world.wire q (record {
    io_stopped = rw e refl;
    no_workers = rw e refl;
    no_sessions = rw e refl;
    no_topics = rw e refl;
    same_tables = rw e refl;
    same_wire = rw e refl;
  })
