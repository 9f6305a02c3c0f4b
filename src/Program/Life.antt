-- ===== src/Program/Life.antt =====
-- The broker of src/broker.cpp from its construction on: calls of start and stop, and, while a thread
-- runs the handlers of boost::asio, their events in any order.
use tinymq_broker.Base.{ℕ, ◌≡◌, ◌≢◌, ◌<◌, refl, Bytes, List, Option, Bool, true, false, none, some}
use tinymq_broker.Packet.{Packet}
use tinymq_broker.Db.Tables.{Server}
use tinymq_broker.Db.Schema.{Postgres}
use tinymq_broker.Db.Listings.{Rendering}
use tinymq_broker.Db.Invariant.{IsUnique}
use tinymq_broker.Db.Steps.{initially, later, outside, Reach-IsUnique, empty_tables}
use tinymq_broker.Broker.World.{Session, Handle, Json, undefined}
use tinymq_broker.Broker.Sessions.{remove_session}
use tinymq_broker.Broker.Known.{authenticated, IsKnown}
use tinymq_broker.Broker.Distinct.{IsDistinct, IsDistinct-empty}
use tinymq_broker.Broker.Lifecycle.{
  Pool, Machine, construct, start, stop, work, on_timer, on_accept,
}
use tinymq_broker.Session.Handlers.{process_packet, on_written}
use tinymq_broker.Locks.Whole.{on_written-Reaches, remove_session-Reaches, process_packet-Reaches}
use tinymq_broker.Program.Sound.{
  IsSound, IsSound-start, IsSound-stop, IsSound-work, IsSound-on_timer, IsSound-on_accept,
  IsSound-accept_fails,
}
use tinymq_broker.Session.Events.{IsBlank-IsKnown}

module _ {S : Type 0} (json : Json) (r : Rendering) (pg : Postgres S) (schema_file : Option Bytes)
    (pool : Pool) where
  pub data Step (m : Machine) : Machine → Type 0 where
    starts : Step m (start pg schema_file pool m).1
    stops : Step m (stop m)
    -- The object is new: it is not one that has identified itself.
    accepts :
        (h : Handle) (e : Option (Bytes × ℕ))
        → 0 < m.workers
        → m.accepting ≡ true
        → authenticated m.world h ≡ false
        → Step m (on_accept (some (h, e)) m)
    accept_fails : 0 < m.workers → m.accepting ≡ true → Step m (on_accept none m)
    receives :
        (h : Handle) (p : Packet)
        → 0 < m.workers
        → (process_packet json r h p m.world).0 ≢ undefined
        → Step m (work (process_packet json r h p) m)
    loses : (h : Handle) → 0 < m.workers → Step m (work (remove_session h) m)
    written : (failed : Bool) (h : Handle) → 0 < m.workers → Step m (work (on_written failed h) m)
    timer_ends : (cancelled : Bool) → 0 < m.workers → m.timer ≡ true → Step m (on_timer cancelled m)
    time_passes :
        (t clock : ℕ) (faults : List Bool)
        → Step m (record m {
          world = record m.world {
            time = t;
            server = record m.world.server { clock = clock; faults = faults };
          };
        })

  pub data Life (m : Machine) : Machine → Type 0 where
    begins : Life m m
    goes_on : {u v : Machine} → Life m u → Step u v → Life m v

module _ {S : Type 0} (json : Json) (r : Rendering) (pg : Postgres S) (schema_file : Option Bytes)
    (pool : Pool) where
  Step-IsSound :
      {m n : Machine} (s : Server)
      → Step json r pg schema_file pool m n
      → IsSound s m.world
      → IsSound s n.world
  Step-IsSound {m} s starts i = IsSound-start s pg schema_file pool m i
  Step-IsSound {m} s stops i = IsSound-stop s m i
  Step-IsSound {m} s (accepts h e w a fresh) i = IsSound-on_accept s h e m fresh i
  Step-IsSound {m} s (accept_fails w a) i = IsSound-accept_fails s m i
  Step-IsSound {m} s (receives h p w d) i =
      IsSound-work s (process_packet json r h p) m (process_packet-Reaches json r h p) i
  Step-IsSound {m} s (loses h w) i =
      IsSound-work s (remove_session h) m (remove_session-Reaches h) i
  Step-IsSound {m} s (written failed h w) i =
      IsSound-work s (on_written failed h) m (on_written-Reaches failed h) i
  Step-IsSound {m} s (timer_ends c w t) i = IsSound-on_timer s c m i
  Step-IsSound {m} s (time_passes t clock faults) i = record {
    database = later i.database (outside clock faults);
    distinct = i.distinct;
    known = record {
      sessions = i.known.sessions;
      subscribers = i.known.subscribers;
      receivers = i.known.receivers;
    };
  }

  Life-keeps :
      {m n : Machine} (s : Server)
      → Life json r pg schema_file pool m n
      → IsSound s m.world
      → IsSound s n.world
  Life-keeps s begins i = i
  Life-keeps s (goes_on q e) i = Step-IsSound s e (Life-keeps s q i)

  -- From the construction of the broker on, through any calls of start and stop and any events in any
  -- order: if the database began empty, it holds no two clients of one id, no two topics of one name
  -- or id, no two requests or subscriptions of one client for one topic and no two administrators of
  -- one topic; no session stands twice in a list of subscribers; and the map of sessions, the lists of
  -- subscribers and the packets sent name sessions only that have identified themselves.
  pub Life-IsSound :
      {n : Machine} (connection : Bytes) (objects : Handle → Session) (s : Server) (time : ℕ)
      → s.tables ≡ empty_tables
      → Life json r pg schema_file pool (construct connection objects s time) n
      → IsUnique n.world.server.tables × IsDistinct n.world.topic_subscribers × IsKnown n.world
  unfolding construct
  Life-IsSound connection objects s time e q =
      let i = Life-keeps s q (record {
        database = initially;
        distinct = IsDistinct-empty;
        known =
            IsBlank-IsKnown _ (record { no_sessions = refl; no_topics = refl; no_packets = refl });
      }) in
      (Reach-IsUnique e i.database, i.distinct, i.known)
