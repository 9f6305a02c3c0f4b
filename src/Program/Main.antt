-- ===== src/Program/Main.antt =====
-- src/main.cpp: `main` from the command line to the exit code, and the signal handler.
use tinymq_broker.Base.{
  ℕ, Bytes, Bool, not, Option, none, some, List, [], ◌∷◌, ◌++◌, if◌then◌else◌, codes, is_empty,
}
use tinymq_broker.Db.Tables.{Server}
use tinymq_broker.Db.Schema.{Postgres}
use tinymq_broker.Broker.World.{Session, Handle, ok, thrown, undefined}
use tinymq_broker.Broker.Lifecycle.{Limits, Machine, construct, start, stop}
use tinymq_broker.Program.Options.{
  pool_of, Options, default_options, parse_arguments, runs, help, throws,
}
use tinymq_broker.Program.Terminal.{
  MessageType, LocalTime, to_string, endl, print_message, print_header,
}

-- What `main` itself writes: a call of print_message, of print_header, or a plain text.
pub data Line : Type 0 where
  message : Bytes → Bytes → MessageType → Line
  header : Bytes → Line
  plain : Bytes → Line

-- A line as the terminal shows it.
unfoldable pub render : LocalTime → Line → Bytes
render t (message source text type) = print_message t source text type
render t (header app_name) = print_header app_name (codes "0.1.0")
render t (plain text) = text ++ endl

-- `main` returns a code, with what it wrote and the broker as it left it, or ends by an exception
-- that nothing catches.
pub data Ending : Type 0 where
  exits : ℕ → List Line → Option Machine → Ending
  uncaught : Ending

-- `g_broker` is set, or null.
unfoldable pub signal_handler : Bool → Machine → Machine
signal_handler g_broker m = if g_broker then stop m else m

unfoldable pub usage : Bytes → List Line
usage program =
    plain (codes "TinyMQ Broker")
    ∷ plain (codes "Usage: " ++ (program ++ codes " [options]"))
    ∷ plain (codes "Options:")
    ∷ plain (codes "  --port PORT       Set the port number (default: 1505)")
    ∷ plain (codes "  --threads N       Set thread pool size (default: 4)")
    ∷ plain (codes "  --db CONNSTR      PostgreSQL connection string")
    ∷ plain
        (codes "                    Example: --db \"dbname=tinymq user=postgres password=secret\"")
    ∷ plain (codes "  --help            Show this help message")
    ∷ []

unfoldable pub config_lines : Options → List Line
config_lines o =
    header (codes "TinyMQ Broker")
    ∷ message (codes "Config") (codes "Port: " ++ to_string o.port) MessageType.info
    ∷ message (codes "Config") (codes "Thread pool size: " ++ to_string o.thread_pool_size)
        MessageType.info
    ∷ (if is_empty o.db_connection_str
        then message (codes "Config") (codes "Database disabled") MessageType.warning
        else message (codes "Config") (codes "Database enabled") MessageType.info)
    ∷ []

abbrev broker_line : Bytes → MessageType → List Line
broker_line text type = message (codes "Broker") text type ∷ []

abbrev pub starting_lines : Options → List Line
starting_lines o = config_lines o ++ broker_line (codes "Starting broker...") MessageType.system

abbrev pub waiting_lines : List Line
waiting_lines =
    broker_line (codes "Press Enter to stop the broker...") MessageType.system
    ++ (broker_line (codes "Stopping broker...") MessageType.system
        ++ broker_line (codes "Broker stopped successfully") MessageType.success)

-- The handler of `std::exception`.
abbrev pub exception_line : Bytes → List Line
exception_line what = broker_line (codes "Exception: " ++ what) MessageType.error

module _ {S : Type 0} (pg : Postgres S) (schema_file : Option Bytes) (objects : Handle → Session)
    (limits : Limits) (server : Server) (time : ℕ) where
  -- The try block. The acceptor could be bound to the port, or its constructor throws, with the text
  -- `what`; `meanwhile` is what happens while `std::cin.get()` waits. A broker that is left by an
  -- exception is stopped by its destructor.
  unfoldable pub run_broker : Bool → Bytes → (Machine → Machine) → Options → Ending
  run_broker bound what meanwhile o =
      let m = construct o.db_connection_str objects server time in
      let started = start pg schema_file (pool_of limits o) m in
      if not bound then exits 1 (config_lines o ++ exception_line what) none else elim started.0 [
        | ok a ↦ exits 0 (starting_lines o ++ waiting_lines) (some (stop (meanwhile started.1)))
        | thrown ↦ exits 1 (starting_lines o ++ exception_line what) (some (stop started.1))
        | undefined ↦ uncaught
      ]

  unfoldable pub main : Bool → Bytes → (Machine → Machine) → Bytes → List Bytes → Ending
  main bound what meanwhile program args = elim (parse_arguments default_options args) [
    | runs o ↦ run_broker bound what meanwhile o
    | help ↦ exits 0 (usage program) none
    | throws ↦ uncaught
  ]
