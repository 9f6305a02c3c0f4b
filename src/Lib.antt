-- ===== src/Lib.antt =====
-- The TinyMQ broker: what src/*.cpp does, and theorems about it.
--
-- The program. A client opens a TCP connection and sends packets (src/packet.h): one byte for the
-- type, one for flags, two for the length of the payload, and the payload. A `Session`
-- (src/session.cpp) reads them one by one and calls the `Broker` (src/broker.cpp), which keeps the
-- sessions by client id, the subscribers of each topic, and a cache of topic ids. A `DbManager`
-- (src/db_manager.cpp) keeps clients, topics, administrators, requests, sensors and a log of messages
-- in PostgreSQL (db/schema.sql). Administration arrives as packets of its own, or as JSON with marked
-- members inside published messages.
--
-- The files.
--   Base      bytes, tests, lists, rows of tables and association lists, with their lemmas.
--   Packet    src/packet.h, src/packet.cpp. Types has the enumeration, RoundTrip its theorems.
--   Db        src/db_manager.cpp and db/schema.sql. Tables has rows and transactions; Names, Clients,
--             Topics, Subscriptions, Admins, Sensors and Listings the methods, each under its name.
--             A method is `transaction failed body`, and `body` what stands between the opening of
--             the transaction and its end: `f_body` for `f`. Schema is `initialize`, `setup_schema`.
--             Committed, Invariant, Preserve, PreserveAdmins and Steps prove what the methods keep;
--             Naming and Rights are about names of topics, and about who may do what; Granted,
--             Workflow and Recorded are about calls that follow one another.
--   Broker    src/broker.h, src/broker.cpp. World has the state; Names, Sessions, Subscriptions,
--             Notify, Admin, Control, Publish and Listings the methods, each under its name. A
--             long method is divided: `control` is the `try` block of `Broker::publish`, with a
--             definition for each marker (Control and Markers), and `distribute` is what follows that
--             block. Subscribed, Registry, Quiet, Delivery, Thrown, Distinct, Known, Once, Recorded,
--             Stale, Sensors, Forged, Requests and Crash have proofs; Reaches and Calls have
--             the rules that every action follows, and which methods of the database it calls.
--             Lifecycle has the constructor, start, stop, and the accept and timer handlers.
--   Session   src/session.h, src/session.cpp. Frames has read_header and read_payload, Handlers
--             the handlers, process_packet and the life of a connection, Events the broker as a
--             state machine that all connections drive. Streams, Guards, Sender, Connect, Payloads, Acks
--             and Enough have proofs.
--   Locks     the handlers of src/session.cpp and the methods of src/broker.cpp, cut at the mutexes. Prog
--             has the pieces; Methods, Notices, Requests, Markers, Control, Lists, Activity and Handlers
--             the programs, with a name in -ing for each method. Runs, Alone, AloneAdmin, AloneControl and
--             AloneSession compare them with the methods in one piece. Order has the discipline of the
--             mutexes and Pieces what a piece must keep; Safe, Keep, KeepTopics, KeepAdmin, KeepControl
--             and KeepSession prove both of each program, and Whole takes that back to the methods in one
--             piece. Schedule, Progress and Atomic are about threads that take turns.
--   Program   src/main.cpp and src/terminal_ui.h. Options has the command line, Main the rest of `main`
--             and Terminal the lines that are printed; Life has the broker from its construction on, as
--             steps that its threads take; Sound, Halt, Poison, Bounds, Exits and Printed have proofs.
--   Examples  concrete packets, worlds and tables on which the theorems are applied.
--
-- How code becomes definitions. A byte is a natural number, a string and a vector of bytes is a list
-- of them. The length field of a packet is taken `% 2 ^ 16`, as `static_cast<uint16_t>` does. A
-- `shared_ptr<Session>` is a handle, `World.objects` the store of the session objects. The fields of
-- `Broker` are those of `World`; a map is an association list. An action `M A` takes a world to a
-- result and a world, and the result is `ok`, `thrown` (an exception that leaves the call) or
-- `undefined` (a null pointer is used). `send_packet` appends to `World.wire`: the packets handed to
-- `async_write`, with the session, in order.
--
-- The database. A table is the list of its rows. A query is written with select, update_where,
-- delete_where, join and order_by, in the words of its SQL. CURRENT_TIMESTAMP and NOW() are the
-- server's clock at that transaction, a number. A transaction fails for a reason outside the tables
-- (no connection, a text that a column refuses, a lost commit) where `Server.faults` says so. A foreign
-- key that a statement violates raises an exception.
--
-- Parameters. `Json` stands for nlohmann::json: a parsed text is the answers it gives to `contains`
-- and `get`, and `parse` and `dump` may throw. `Rendering` stands for PostgreSQL's text of a
-- timestamp and of an id, and for its order of names.
--
-- Loops. `read_packets` and `serve` take fuel: one unit for each packet of the stream and one more.
-- A packet takes four bytes at least, so the number of bytes and one more is always enough. `to_string`
-- takes its number and one more for the digits. All other loops follow a list.
--
-- The event loop. `Machine` adds to the world the flags of the broker's parts of boost::asio and the
-- number of threads inside `io_context_.run()`. A handler is one step of one thread, and an exception
-- that leaves it ends the thread. PostgreSQL's answers to `setup_schema` are the parameter `Postgres`.
--
-- Threads. Outside Locks each call of a handler is one step. In Locks every connection and the timer's
-- check is a program whose pieces run under one mutex each, or one transaction, and any thread may run a
-- piece in between; register_session keeps sessions_mutex_ over its pieces, by `takes` and `gives`. A
-- piece that takes no mutex may run at any time. In a schedule the threads are given at its start.
--
-- Limits. How large a vector `threads_.reserve` grants, and how many threads the system starts, are the
-- parameter `Limits` of `start`; beyond them it throws. The end of a write, with an error or without, is
-- the event `on_written`.
--
-- Not modelled. `Broker::stop` and the accept handler are not among the threads of a schedule. The log
-- lines that the broker, the sessions and the database manager write are left out. An exception of `send_packet` itself is
-- left out as well: the only source is a lack of memory.
pub mod Base
pub mod Packet
pub mod Db
pub mod Broker
pub mod Session
pub mod Locks
pub mod Program
pub mod Examples
