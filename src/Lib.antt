-- ===== src/Lib.antt =====
-- A model of buildomat: the server's database of jobs and workers with the requests of workers and
-- factories, the agent's control protocol, the lab factory, and the decoder of its logs.
--
-- The server (server/) keeps jobs, their tasks, events, outputs and dependencies, and the workers that
-- run them, in a SQLite database. Users make jobs through its API; background tasks wake, assign,
-- cancel and archive them; factories make workers; an agent (agent/) on each worker runs the job's
-- tasks and reports back. The lab factory (factory/lab/) runs instances on physical hosts, and sends
-- their events to the server. A control program on the worker talks to the agent over a local socket.
--
-- Which file is about which part:
--
--   Prelude (and Prelude/*)   names of the library, tests on numbers, lists, text, results
--   Sql (and Sql/*)           the statements that the database code spells through Diesel, on lists
--   Bunyan                    bunyan/src/lib.rs: the decoder of log lines
--   Agent/Decoder             agent/src/control/protocol.rs: frames and the decoder
--   Agent/Server              agent/src/control/server.rs: the reading half of `handle_client_turn`
--   Server/Models             server/src/db/models.rs, and the `Create…` records of server/src/db.rs
--   Server/State              server/src/db.rs: the database and its transactions
--   Server/Events             `i_job_event_insert`, `i_job_time_record`, `i_job_time_delta`
--   Server/Jobs               `job_append_event`, `job_wakeup`, `job_cancel`, `job_complete`,
--                             `task_complete`, `job_mark_archived`
--   Server/Workers            `worker_create`, `worker_assign_job`, `worker_job`, and the flags
--   Server/Create             `job_create`
--   Server/Store              `job_store_put`
--   Server/Bootstrap          `worker_bootstrap`, `worker_associate`, `worker_auth`
--   Server/Files              inputs, outputs, published files and their archive
--   Server/Depends            `job_depend_satisfy`
--   Server/Pass               passes of background tasks; `complete_job` of server/src/main.rs
--   Server/Waiters            server/src/jobs.rs: `job_waiters_one`
--   Server/Assignment         server/src/jobs.rs: `job_assignment_one`, `recycle_on_complete_one`
--   Server/Cleanup            server/src/workers.rs: `worker_cleanup_one`
--   Server/Completion         what `job_complete` leaves
--   Server/Leases             server/src/jobs.rs: leases, and `lease_cleanup_one`
--   Server/JobTable           the job table as a state machine, and what its writes keep
--   Server/History            all the calls on the database as one step function, and histories of them
--   Server/Commits            server/src/files.rs: uploaded chunks become files of a job
--   Server/Api                server/src/api: a handler as a program that calls the database
--   Server/Api/WorkerRequests server/src/api/worker.rs, with `require_worker`
--   Server/Api/JobFiles       its requests about files, and `complete_job` of server/src/main.rs
--   Server/Api/Serve          the requests about a job as one step of the server
--   Server/Api/Later          sequences of such requests, of factories' and of users' puts, after the end
--                             of a job
--   Server/Factories          factories and targets in server/src/db.rs, and the leases that
--                             server/src/api/factory.rs grants
--   Server/Factories/Requests its requests about the workers of a factory
--   Lab/Models, Lab/Database  factory/lab/src/db: instances and their events
--   Lab/Changes, Lab/History  its calls as a relation between databases, and histories of them with the
--                             manager of factory/lab/src/host.rs
--   Lab/InstanceId            IDs of instances, in factory/lab/src/db/models.rs and worker.rs
--   Lab/Worker                `lab_worker_one` of factory/lab/src/worker.rs, up to the scrub of workers
--   Lab/Upload                `upload_worker_one` of factory/lab/src/worker.rs, for one instance
--   Lab/Console               factory/lab/src/host.rs: the cleaning of a line of console output
--   Lab/Minder                factory/lab/src/minder.rs: what a host asks for while it boots
--
-- A table is the list of its rows in the order of insertion. A query is a filter on the list; an
-- insert fails where a row with the same key stands in it; an update maps the rows that its `WHERE`
-- clause picks, and the number of them is what `execute` reports. The lock around the connection
-- and `immediate_transaction` make one operation at a time, so an operation is a function from the
-- database to a failure, which leaves the database as it was, or a value and a new database. A panic
-- (an assertion or an `unwrap` that fails) is a failure too; that it poisons the lock is not modelled.
-- The i32 columns of an event stand for their 32 bits, and the sum that makes a number wraps around, as
-- in a release build.
--
-- A pass of a background task is a sequence of such calls; a failure ends the pass and leaves what the
-- calls before it have done. Which jobs have files that are still being written (server/src/files.rs)
-- is an argument of a pass, since `mark_job_completed` refuses those.
--
-- A worker thread of server/src/files.rs takes work, does it, and marks it; between these steps, each of
-- which holds the lock, any other thread or request may run, so they are the actions of a history. A
-- panic in the database kills the thread, and its commit stays active. The
-- manager of the lab factory lists instances, checks one for events that are left, and retires it, with
-- any calls between. A handler of the API makes several calls, and what was written before a failure
-- stays; handlers run one after another, not interleaved. The file system, and the server as the lab
-- factory sees it, are arguments: sizes of files, whether a copy was made, the reply to each request.
--
-- What comes from outside is an argument: readings of the clock (`now k` is the k-th reading of an
-- operation), new IDs and keys, and the `ulid` crate's reading of the time in an ID. A time is a
-- number of nanoseconds. A message of the event log is a constructor with the values that it formats.
-- The JSON codec of the control protocol is a pair of parameters; that it reads back what it wrote is
-- a named hypothesis where it is used.
--
-- The loop of `take` runs on 4 turns of fuel: a version, a length, a frame and an error are the most
-- that one call meets. The loop over `take` runs on fuel above the number of frames. The loop of the log
-- decoder runs on one turn more than there are bytes: each turn but the last takes a line's newline. The
-- digits of a number are made on as much fuel as the number, which each turn divides by ten.
--
-- Not modelled: sockets, processes and files; the parsing of HTTP requests and of the Authorization
-- header; the requests of users and administrators; the AWS factory; how the lab factory makes a worker,
-- and the states of its hosts; the GitHub integration; the generated client.
pub mod Prelude
pub mod Sql
pub mod Bunyan
pub mod Lab
pub mod Agent
pub mod Server
