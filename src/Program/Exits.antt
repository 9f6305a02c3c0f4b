-- ===== src/Program/Exits.antt =====
-- How `main` of src/main.cpp ends.
use tinymq_broker.Base.{
  ℕ, ◌≡◌, refl, Bytes, Bool, true, false, Option, some, List, [], ◌++◌, ◌⊎◌, not, ltb, ◌&&◌,
  Bool-cases, if◌then◌else◌, inl, inr, arith,
}
use tinymq_broker.Db.Tables.{Server}
use tinymq_broker.Db.Schema.{Postgres}
use tinymq_broker.Db.Listings.{Rendering}
use tinymq_broker.Broker.World.{Session, Handle, Json, Result, ok, thrown, undefined, M}
use tinymq_broker.Broker.Sessions.{remove_session, check_client_activity}
use tinymq_broker.Session.Handlers.{process_packet, on_written}
use tinymq_broker.Broker.Lifecycle.{
  Limits, is_launched, Pool, Machine, construct, start_client_activity_check, open_database, launch,
  start, stop, work, rearm, on_timer, on_accept,
}
use tinymq_broker.Program.Options.{Options, default_options, parse_arguments, runs, pool_of, boot}
use tinymq_broker.Program.Bounds.{boot_lem}
use tinymq_broker.Program.Life.{
  Step, Life, starts, stops, accepts, accept_fails, receives, loses, written, timer_ends,
  time_passes, begins, goes_on,
}
use tinymq_broker.Program.Main.{
  exits, exception_line, starting_lines, waiting_lines, run_broker, main,
}

pub record IsDown (m : Machine) : Type 0 where
  pub not_running : m.running ≡ false
  pub io_stopped : m.io_stopped ≡ true
  pub acceptor_closed : m.acceptor_open ≡ false
  pub no_workers : m.workers ≡ 0
  pub no_sessions : m.world.sessions ≡ []
  pub no_topics : m.world.topic_subscribers ≡ []

abbrev IsUpOrDown : Machine → Type 0
IsUpOrDown m = (m.running ≡ true) ⊎ IsDown m

running-stop : (m : Machine) → m.running ≡ true → IsDown (stop m)
unfolding stop
running-stop m e = record {
  not_running = rw e refl;
  io_stopped = rw e refl;
  acceptor_closed = rw e refl;
  no_workers = rw e refl;
  no_sessions = rw e refl;
  no_topics = rw e refl;
}

IsDown-stop : (m : Machine) → IsDown m → IsDown (stop m)
unfolding stop
IsDown-stop m d = record {
  not_running = ground (arith, d.not_running);
  io_stopped = rw d.not_running d.io_stopped;
  acceptor_closed = rw d.not_running d.acceptor_closed;
  no_workers = rw d.not_running d.no_workers;
  no_sessions = rw d.not_running d.no_sessions;
  no_topics = rw d.not_running d.no_topics;
}

IsUpOrDown-stop : (m : Machine) → IsUpOrDown m → IsDown (stop m)
IsUpOrDown-stop m (inl e) = running-stop m e
IsUpOrDown-stop m (inr d) = IsDown-stop m d

running-start :
    {S : Type 0} (pg : Postgres S) (schema_file : Option Bytes) (n : Pool) (m : Machine)
    → (start pg schema_file n m).1.running ≡ true
unfolding start launch open_database start_client_activity_check
running-start pg schema_file n m = ground arith

running-work :
    (handler : M (Unit {0})) (m : Machine) → m.running ≡ true → (work handler m).running ≡ true
unfolding work
running-work handler m u = ground (arith, u)

running-rearm :
    (a : Result (Unit {0})) (m : Machine) → m.running ≡ true → (rearm a m).running ≡ true
unfolding start_client_activity_check
running-rearm (ok a) m u = ground (arith, u)
running-rearm thrown m u = u
running-rearm undefined m u = u

running-if :
    (test : Bool) (m n : Machine)
    → m.running ≡ true
    → n.running ≡ true
    → (if test then m else n).running ≡ true
running-if true m n u v = u
running-if false m n u v = v

running-on_timer :
    (cancelled : Bool) (m : Machine) → m.running ≡ true → (on_timer cancelled m).running ≡ true
unfolding on_timer
running-on_timer cancelled m u =
    running-if (not cancelled && m.running) _ _
      (running-rearm (check_client_activity m.world).0
        (work check_client_activity (record m { timer = false }))
        (running-work check_client_activity (record m { timer = false }) u))
      u

module _ {S : Type 0} (json : Json) (r : Rendering) (pg : Postgres S) (schema_file : Option Bytes)
    (pool : Pool) where
  Step-IsUpOrDown :
      {m n : Machine} → Step json r pg schema_file pool m n → IsUpOrDown m → IsUpOrDown n
  unfolding on_accept
  Step-IsUpOrDown {m} starts i = inl (running-start pg schema_file pool m)
  Step-IsUpOrDown {m} stops i = inr (IsUpOrDown-stop m i)
  Step-IsUpOrDown {m} (accepts h e w a fresh) (inl u) = inl (ground arith)
  Step-IsUpOrDown {m} (accepts h e w a fresh) (inr d) = ground (arith, d.no_workers)
  Step-IsUpOrDown {m} (accept_fails w a) (inl u) = inl (ground arith)
  Step-IsUpOrDown {m} (accept_fails w a) (inr d) = ground (arith, d.no_workers)
  Step-IsUpOrDown {m} (receives h p w e) (inl u) =
      inl (running-work (process_packet json r h p) m u)
  Step-IsUpOrDown {m} (receives h p w e) (inr d) = ground (arith, d.no_workers)
  Step-IsUpOrDown {m} (loses h w) (inl u) = inl (running-work (remove_session h) m u)
  Step-IsUpOrDown {m} (loses h w) (inr d) = ground (arith, d.no_workers)
  Step-IsUpOrDown {m} (written failed h w) (inl u) = inl (running-work (on_written failed h) m u)
  Step-IsUpOrDown {m} (written failed h w) (inr d) = ground (arith, d.no_workers)
  Step-IsUpOrDown {m} (timer_ends c w t) (inl u) = inl (running-on_timer c m u)
  Step-IsUpOrDown {m} (timer_ends c w t) (inr d) = ground (arith, d.no_workers)
  Step-IsUpOrDown {m} (time_passes t clock faults) (inl u) = inl u
  Step-IsUpOrDown {m} (time_passes t clock faults) (inr d) = inr (record {
    not_running = d.not_running;
    io_stopped = d.io_stopped;
    acceptor_closed = d.acceptor_closed;
    no_workers = d.no_workers;
    no_sessions = d.no_sessions;
    no_topics = d.no_topics;
  })

  Life-IsUpOrDown :
      {m n : Machine} → Life json r pg schema_file pool m n → IsUpOrDown m → IsUpOrDown n
  Life-IsUpOrDown begins i = i
  Life-IsUpOrDown (goes_on q e) i = Step-IsUpOrDown e (Life-IsUpOrDown q i)

module _ {S : Type 0} (json : Json) (r : Rendering) (pg : Postgres S) (schema_file : Option Bytes)
    (objects : Handle → Session) (limits : Limits) (server : Server) (time : ℕ) where
  run_broker-bound :
      (what : Bytes) (meanwhile : Machine → Machine) (o : Options)
      → let m = boot pg schema_file limits o objects server time in
        let launched = is_launched (pool_of limits o) in
        run_broker pg schema_file objects limits server time true what meanwhile o
        ≡ exits
            (if launched then 0 else 1)
            (starting_lines o ++ (if launched then waiting_lines else exception_line what))
            (some (stop (if launched then meanwhile m else m)))
  unfolding run_broker construct start
  run_broker-bound what meanwhile o = elim (Bool-cases (is_launched (pool_of limits o))) [
    | inl e ↦ rw e refl
    | inr e ↦ rw e refl
  ]

  IsDown-either :
      (launched : Bool) (m n : Machine)
      → IsUpOrDown m
      → IsUpOrDown n
      → IsDown (stop (if launched then m else n))
  IsDown-either true m n i j = IsUpOrDown-stop m i
  IsDown-either false m n i j = IsUpOrDown-stop n j

  -- If the arguments are options, the acceptor could be bound to the port, and what happens while
  -- `main` waits for Enter is calls of start and stop and events in any order, then `main` returns 0
  -- just if the vector grants the number of threads and the system starts them, even where a signal has
  -- stopped the broker before Enter, and otherwise 1, without waiting. Either way it leaves a broker that
  -- does not run, with a closed acceptor, a stopped event loop, no thread, no session and no subscriber.
  pub main_exit_code :
      (what program : Bytes) (meanwhile : Machine → Machine) (args : List Bytes) (o : Options)
      → parse_arguments default_options args ≡ runs o
      → Life json r pg schema_file
          (pool_of limits o)
          (boot pg schema_file limits o objects server time)
          (meanwhile (boot pg schema_file limits o objects server time))
      → let m = boot pg schema_file limits o objects server time in
        let launched =
          not (ltb limits.reservable o.thread_pool_size)
          && not (ltb limits.startable o.thread_pool_size) in
        (main pg schema_file objects limits server time true what meanwhile program args
          ≡ exits
              (if launched then 0 else 1)
              (starting_lines o ++ (if launched then waiting_lines else exception_line what))
              (some (stop (if launched then meanwhile m else m))))
        × IsDown (stop (if launched then meanwhile m else m))
  unfolding main is_launched
  main_exit_code what program meanwhile args o e q =
      let up : IsUpOrDown (boot pg schema_file limits o objects server time) =
        inl (boot_lem pg schema_file limits o objects server time).0 in
      (
        rw (e, main) (run_broker-bound what meanwhile o),
        IsDown-either (is_launched (pool_of limits o)) _ _
            (Life-IsUpOrDown json r pg schema_file (pool_of limits o) q up) up,
      )
