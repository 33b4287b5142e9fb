-- ===== src/Lib.antt =====
-- JusticeFlow, a police records system in C++: a model of its core logic, with theorems about it.
-- Paths below are from the repository's root.
--
-- Officers log in through the authentication module (src/system/shr_infra/auth), which keeps the
-- sessions in memory and a short cache of who is on duty. The subsystems check a session, a rank or
-- a duty with it and then send SQL statements over one PostgreSQL connection. Requests come in
-- through a server on a local socket and are run by a pool of threads (src/os_layer).
--
-- Base: shared helpers. Numbers are natural numbers, `int` is ℤ with its range written out where a
--   conversion checks it (Base/Int), texts are lists of bytes (Base/Text), `unordered_map` is an
--   association list (Base/Dict).
-- Types: the result codes, ranks and session contexts of src/common.
-- Auth: src/system/shr_infra/auth. SessionStore, Token (token_generator.cpp), Manager
--   (auth_manager.cpp) and DutyCache. The clock, the environment, the random device and what the
--   database answers are arguments.
-- OsLayer: src/os_layer. UnixSocket is the one database connection and its mutex; a call that waits
--   for a mutex that nobody can release is the value `blocks`. ThreadPool is the ring buffer of
--   src/os_layer/threading/src/thread_pool.cpp, one step per critical section.
-- Postgres: what the code relies on in PostgreSQL, as a record of operations and laws. The effect of
--   each SQL text is written out as a function on rows. Where the code reads a text of a result behind
--   `PQclear`, what it reads is an argument, `cleared`.
-- Enforcement: src/system/subsystem3/enforcement. Custody is the state machine of an arrest, Database
--   the tables, Arrest, Warrant and Bail the three managers, Memory a database that keeps the laws.
-- Forensic: src/system/subsystem3/forensic. Status is the order of the work, Repository the table and
--   its statements, Body what each operation does once it is allowed to, Manager the session, the
--   duty, the rank and the lock around it.
--
-- Gateway: the dashboard's requests. Json is the parser and the printer of
--   src/os_layer/ipc/src/socket_request.cpp, Request and Response its two messages; Rows, Frame,
--   Handlers and Server are src/os_layer/ipc/src/domain_socket.cpp: the JSON of an answer, the frames
--   of the connection, one handler for each command, and the thread that serves a client. What `recv`
--   and `send` do is a list of events; an uncaught exception is the value `crashes`.
-- OsLayer.Wire, OsLayer.Sessions and OsLayer.Worker: src/os_layer/threading, the frames of a worker
--   thread, the registry of sessions and the gate, and the loop of worker.cpp over a client's requests,
--   on the login and the session store of Auth and the connection of UnixSocket.
-- OsLayer.Mapping: src/os_layer/memory/src/mmap_handler.cpp, what `mmap` gives is an argument.
-- OsLayer.Process and OsLayer.Scheduler: src/os_layer/process and src/os_layer/scheduler, the registry
--   of child processes, their reaping and shutdown, the ticks of the jobs and the flags that signals
--   set. The kernel's side of `waitpid` and `kill` is a record of operations and one law; what SIGKILL does
--   to a child is a record that the end of the shutdown takes, and a wait may be the value `blocks`.
--
-- Cases: src/system/subsystem2. ChargeSheet is src/models/ChargeSheet.cpp with the drafting and the
--   submission of controllers/InvestigationManager.cpp, Registration the registration and the reading
--   of cases of controllers/CaseManager.cpp, Evidence is models/Evidence.cpp and
--   controllers/EvidenceManager.cpp. The file system, the clock, what the
--   database answers and the reading of coordinates are arguments.
--
-- Audit: src/system/subsystem3/audit. The statements of audit_query.cpp, Query their parameters and the
--   records made of rows, Manager the connection of audit_manager.cpp.
--
-- Personnel: src/system/subsystem1. The changes and inserts of subsystem1.cpp, Queries and Rosters its
--   lists, Observers the array of observers of src/evidence_manager.cpp. The type of an enum stays
--   its number.
--
-- Bounds and fuel. On fuel are the pair loop of `authenticateFallbackUser`, which
-- has as many rounds as the text has bytes, `std::to_string`, with one round more than the number,
-- and the spawn loop of the pool, with as many rounds as threads: each round takes one of these.
-- The parser of an object has a round for each byte and one more, a client's thread, of the socket server
-- and of the workers, takes any fuel above the bytes that arrive, and the shutdown of the children takes a round more than the clock
-- needs to reach ten seconds; that this is enough is proved of each.
--
-- Not modelled: the log, the command line, the HTTP gateway, the daemon and the wrappers of system calls,
-- which have no logic of their own, and the Python agents and the SQL scripts;
-- nor are the facade (src/system/system.cpp), the reports and case strategies of subsystem 1 and the
-- shared memory of the OS layer.
pub mod Base
pub mod Types
pub mod Auth
pub mod OsLayer
pub mod Postgres
pub mod Enforcement
pub mod Forensic
pub mod Gateway
pub mod Cases
pub mod Audit
pub mod Personnel
