-- ===== src/Broker/Lifecycle.antt =====
-- Construction, start, stop, accept and timer of src/broker.cpp. boost::asio is seen through its
-- documented behaviour: `run` returns at once in a context that was stopped, a closed acceptor has no
-- endpoint, and an exception of a handler leaves `run`.
use tinymq_broker.Base.{
  ℕ, ◌+◌, ◌-◌, Bytes, Bool, true, false, ◌&&◌, not, Option, none, some, [], if◌then◌else◌, is_empty,
  ltb,
}
use tinymq_broker.Db.Tables.{Server}
use tinymq_broker.Db.Schema.{Postgres, initialize}
use tinymq_broker.Broker.World.{
  Session, Handle, World, Result, ok, thrown, undefined, M, set_object,
}
use tinymq_broker.Broker.Sessions.{check_client_activity}

-- A session as `accept_connections` makes it.
abbrev pub new_session : Option (Bytes × ℕ) → Session
new_session endpoint = record {
  client_id = [];
  is_authenticated = false;
  is_open = true;
  endpoint = endpoint;
}

-- The broker with its threads. `accepting` and `timer` say whether an accept and a wait are pending,
-- `workers` is the number of threads inside `io_context_.run()`.
pub record Machine : Type 0 where
  pub world : World
  pub running : Bool
  pub acceptor_open : Bool
  pub accepting : Bool
  pub timer : Bool
  pub io_stopped : Bool
  pub workers : ℕ

-- The constructor; `db_manager_` is made if there is a connection string.
unfoldable pub construct : Bytes → (Handle → Session) → Server → ℕ → Machine
construct db_connection_str objects server time = record {
  world = record {
    objects = objects;
    sessions = [];
    topic_subscribers = [];
    topic_id_cache = [];
    has_database = not (is_empty db_connection_str);
    server = server;
    time = time;
    wire = [];
  };
  running = false;
  acceptor_open = true;
  accepting = false;
  timer = false;
  io_stopped = false;
  workers = 0;
}

unfoldable pub start_client_activity_check : Machine → Machine
start_client_activity_check m =
    if not m.world.has_database then m else if not m.running then m else record m { timer = true }

abbrev pub accept_connections : Machine → Machine
accept_connections m = record m { accepting = true }

-- `initialize`, and what `start` makes of its answer.
unfoldable pub open_database : Bool → Machine → Machine
open_database initialized m =
    if not m.world.has_database
    then m
    else if initialized
    then start_client_activity_check m
    else record m { world = record m.world { has_database = false } }

-- The largest size that `threads_.reserve` grants, and the number of threads that the system starts
-- before the constructor of `std::thread` throws.
pub record Limits : Type 0 where
  pub reservable : ℕ
  pub startable : ℕ

-- `thread_pool_size_` with the limits that it meets.
pub record Pool : Type 0 where
  pub size : ℕ
  pub limits : Limits

-- `reserve` throws before the first thread; a thread that cannot be started leaves those before it.
unfoldable pub threads_made : Pool → ℕ
threads_made pool =
    if ltb pool.limits.reservable pool.size
    then 0
    else if ltb pool.limits.startable pool.size
    then pool.limits.startable
    else pool.size

-- Neither throws.
unfoldable pub is_launched : Pool → Bool
is_launched pool =
    not (ltb pool.limits.reservable pool.size) && not (ltb pool.limits.startable pool.size)

unfoldable pub launch : Pool → Machine → Machine
launch pool m = record m { workers = m.workers + (if m.io_stopped then 0 else threads_made pool) }

-- An exception leaves the broker as it is by then. The last log line asks the acceptor for its
-- endpoint, which throws if it is closed.
unfoldable pub start :
    {S : Type 0} → Postgres S → Option Bytes → Pool → Machine → Result (Unit {0}) × Machine
start pg schema_file pool m = if m.running then (ok tt, m) else (
  (if is_launched pool && m.acceptor_open then ok tt else thrown),
  launch pool (
      accept_connections (open_database (initialize pg schema_file) (record m { running = true }))),
)

-- The threads are joined before the maps are cleared. The id cache is kept.
unfoldable pub stop : Machine → Machine
stop m = if not m.running then m else record m {
  running = false;
  acceptor_open = false;
  timer = false;
  io_stopped = true;
  workers = 0;
  world = record m.world { sessions = []; topic_subscribers = [] };
}

-- A handler on one of the threads: an exception ends the thread.
unfoldable pub work : M (Unit {0}) → Machine → Machine
work handler m = elim (handler m.world).0 [
  | ok a ↦ record m { world = (handler m.world).1 }
  | thrown ↦ record m { world = (handler m.world).1; workers = m.workers - 1 }
  | undefined ↦ record m { world = (handler m.world).1; workers = 0 }
]

-- What follows the check, if it returns.
abbrev pub rearm : Result (Unit {0}) → Machine → Machine
rearm (ok a) m = start_client_activity_check m
rearm thrown m = m
rearm undefined m = m

-- The wait ends, with an error if it was cancelled.
unfoldable pub on_timer : Bool → Machine → Machine
on_timer cancelled m =
    let m' = record m { timer = false } in
    if not cancelled && m.running
    then rearm (check_client_activity m.world).0 (work check_client_activity m')
    else m'

-- The accept ends with a socket, for which a session is made and started, or with an error.
unfoldable pub on_accept : Option (Handle × Option (Bytes × ℕ)) → Machine → Machine
on_accept socket m =
    let m' = record m {
      accepting = false;
      world = elim socket [
        | none ↦ m.world
        | some (h, endpoint) ↦ record m.world {
          objects = set_object h (new_session endpoint) m.world.objects;
        }
      ];
    } in
    if m.running then accept_connections m' else m'
