-- ===== src/Examples/Life.antt =====
-- A broker that is constructed, started and stopped, for src/broker.cpp and src/db_manager.cpp.
use tinymq_broker.Base.{
  ◌≡◌, refl, Bytes, Bool, true, false, none, some, [], ◌∷◌, ◌++◌, ◌==◌, bytes_equality,
  nat_equality, starts_with, ℕ, ◌^◌, ◌-◌, codes, arith, if◌then◌else◌, bytes_beq, lookup,
}
use tinymq_broker.Db.Schema.{
  probe, begins_with_create, Postgres, done, failed, broken, IsAborting, is_refused, setup_schema,
  create_schema, initialize, setup_schema_never_creates,
}
use tinymq_broker.Db.Steps.{empty_tables}
use tinymq_broker.Db.Tables.{Server}
use tinymq_broker.Db.Invariant.{IsUnique}
use tinymq_broker.Broker.Distinct.{IsDistinct}
use tinymq_broker.Broker.Known.{IsKnown}
use tinymq_broker.Broker.Lifecycle.{
  Limits, Pool, threads_made, is_launched, Machine, new_session, construct, start, stop, launch,
  open_database, on_accept,
}
use tinymq_broker.Program.Options.{
  negsuc, to_unsigned, Options, default_options, parse_arguments, runs, boot,
}
use tinymq_broker.Program.Main.{exits, starting_lines, waiting_lines, main}
use tinymq_broker.Program.Exits.{IsDown, main_exit_code}
use tinymq_broker.Program.Printed.{arguments_of, parse_arguments-arguments_of}
use tinymq_broker.Program.Life.{Life, begins, goes_on, starts, stops, accepts, Life-IsSound}
use tinymq_broker.Program.Halt.{IsHalted, stop_is_final}
use tinymq_broker.Program.Poison.{published_by, poison_is_final}
use tinymq_broker.Examples.Samples.{sample_world, sample_json, failing_json, sample_rendering}
use tinymq_broker.Examples.Deliveries.{message, message-IsOrdinary}

-- A database without tables: the state says whether a statement has failed.
abbrev empty_postgres : Postgres Bool
empty_postgres = record {
  connect = some true;
  open_transaction = some false;
  exec = λ sql aborted.
      if aborted
      then (if begins_with_create false sql then failed (codes "25P02") true else done false)
      else if sql == probe
      then failed (codes "42P01") true
      else done false;
  commit = λ aborted. if aborted then broken else done false;
}

exec-aborted :
    (sql code : Bytes) (s t : Bool) → empty_postgres.exec sql s ≡ failed code t → t ≡ true
exec-aborted sql code true t e = ground arith
exec-aborted sql code false t e = ground arith

commit-aborted : (code : Bytes) (s t : Bool) → empty_postgres.commit s ≡ failed code t → t ≡ true
commit-aborted code true t e = ground arith
commit-aborted code false t e = ground arith

refused_again :
    (sql : Bytes) (t : Bool)
    → t ≡ true
    → begins_with_create false sql ≡ true
    → is_refused empty_postgres (empty_postgres.exec sql t) ≡ true
refused_again sql t e c = rw (e, c) refl

empty_postgres-IsAborting : IsAborting empty_postgres
empty_postgres-IsAborting = record {
  after_exec = λ sql later code s t e c. refused_again later t (exec-aborted sql code s t e) c;
  after_commit = λ later code s t e c. refused_again later t (commit-aborted code s t e) c;
}

-- As db/schema.sql begins.
abbrev schema_sql : Bytes
schema_sql = codes "-- public.clients definition\n\nCREATE TABLE public.clients (id serial4);"

setup_schema_never_creates_example :
    setup_schema empty_postgres (some schema_sql) ≡ setup_schema empty_postgres none
unfolding begins_with_create starts_with
setup_schema_never_creates_example =
    setup_schema_never_creates empty_postgres empty_postgres-IsAborting (some schema_sql) refl

-- What a 64-bit libstdc++ grants, and a system with room for 1000 threads.
abbrev sample_limits : Limits
sample_limits = record { reservable = 2 ^ 60 - 1; startable = 1000 }

abbrev sample_pool : ℕ → Pool
sample_pool n = record { size = n; limits = sample_limits }

abbrev empty_server : Server
empty_server = record { tables = empty_tables; clock = 1; faults = [] }

abbrev made : Machine
made = construct (codes "dbname=tinymq") (λ h. new_session none) empty_server 1

abbrev started : Machine
started = (start empty_postgres none (sample_pool 4) made).1

abbrev accepted : Machine
accepted = on_accept (some (9, some (codes "::1", 5))) started

abbrev first_life :
    Life sample_json sample_rendering empty_postgres none (sample_pool 4) made (stop accepted)
unfolding construct start launch threads_made open_database initialize setup_schema create_schema
    bytes_beq
first_life =
    goes_on
      (goes_on (goes_on begins starts) (accepts 9 (some (codes "::1", 5)) (omega arith) refl refl))
      stops

Life-IsSound_example :
    IsUnique (stop accepted).world.server.tables
    × IsDistinct (stop accepted).world.topic_subscribers
    × IsKnown (stop accepted).world
Life-IsSound_example =
    Life-IsSound sample_json sample_rendering empty_postgres none (sample_pool 4)
      (codes "dbname=tinymq") (λ h. new_session none) empty_server 1 refl first_life

abbrev busy : Machine
busy = record {
  world = sample_world;
  running = true;
  acceptor_open = true;
  accepting = true;
  timer = true;
  io_stopped = false;
  workers = 2;
}

stop_is_final_example :
    IsHalted sample_world.server.tables sample_world.wire
      (start empty_postgres none (sample_pool 4) (stop busy)).1
stop_is_final_example =
    stop_is_final sample_json sample_rendering empty_postgres none (sample_pool 4) busy refl
      (goes_on begins starts)

-- Sessions 2 and 3 take both threads.
poison_is_final_example :
    let left =
      stop (published_by failing_json sample_rendering (codes "a/t") message (2 ∷ 3 ∷ []) busy) in
    (left.workers ≡ 0) × (left.world.wire ≡ sample_world.wire)
unfolding bytes_beq lookup
poison_is_final_example =
    poison_is_final failing_json sample_rendering (codes "a/t") message (omega arith)
      (message-IsOrdinary failing_json) refl empty_postgres none (sample_pool 4) (2 ∷ 3 ∷ []) busy
      refl refl refl (refl, (refl, tt)) (goes_on begins stops)

abbrev wide_port : Options
wide_port = record { port = 4464; thread_pool_size = 4; db_connection_str = [] }

-- A signal comes after a connection was accepted, and Enter after it.
abbrev meanwhile : Machine → Machine
meanwhile m = stop (on_accept (some (9, some (codes "::1", 5))) m)

abbrev options_1883 : Options
options_1883 = record { port = 1883; thread_pool_size = 2; db_connection_str = [] }

abbrev booted : Machine
booted = boot empty_postgres none sample_limits options_1883 (λ h. new_session none) empty_server 1

abbrev meanwhile-Life :
    Life sample_json sample_rendering empty_postgres none (sample_pool 2) booted (meanwhile booted)
unfolding construct start launch threads_made open_database
meanwhile-Life =
    goes_on (goes_on begins (accepts 9 (some (codes "::1", 5)) (omega arith) refl refl)) stops

main_exit_code_example :
    (main empty_postgres none
        (λ h. new_session none)
        sample_limits
        empty_server
        1
        true
        []
        meanwhile
        (codes "tinymq_broker")
        (arguments_of options_1883)
      ≡ exits 0 (starting_lines options_1883 ++ waiting_lines) (some (stop (meanwhile booted))))
    × IsDown (stop (meanwhile booted))
unfolding is_launched
main_exit_code_example =
    main_exit_code sample_json sample_rendering empty_postgres none (λ h. new_session none)
      sample_limits empty_server 1 [] (codes "tinymq_broker") meanwhile (arguments_of options_1883)
      options_1883
      (parse_arguments-arguments_of default_options options_1883 (omega arith) (omega arith))
      meanwhile-Life

-- With --threads -1 there is no room.
negative_threads :
    is_launched (record { size = to_unsigned 64 (negsuc 0); limits = sample_limits }) ≡ false
unfolding is_launched to_unsigned
negative_threads = refl

parse_arguments-arguments_of_example :
    parse_arguments wide_port (arguments_of options_1883) ≡ runs options_1883
parse_arguments-arguments_of_example =
    parse_arguments-arguments_of wide_port options_1883 (omega arith) (omega arith)
