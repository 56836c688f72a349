-- ===== src/Lib.antt =====
-- A verification library for a2ad, the daemon that submits tasks to A2A agents on behalf of local
-- clients and governs what it dispatches.
--
-- The program. Clients send JSON requests over a local socket (daemon/src/IpcServer.cpp). The control
-- plane (daemon/src/ControlPlane.cpp) serves its own operations from two SQLite tables, the records
-- and the event log, and lets a mutation pass to the dispatcher (daemon/src/main.cpp and
-- daemon/src/TaskManager.cpp) only after its checks; it records the execution before the dispatch and
-- the outcome after it. The task manager talks to agents through daemon/src/A2AClient.cpp, at the
-- interface that daemon/src/AgentCard.cpp chooses. daemon/src/Config.cpp says which agent is the
-- default for a directory, and daemon/src/types.cpp names the states of a task.
--
-- The files.
--   Common          shared names of the libraries, Boolean tests, lists and texts over native numbers,
--                   searches in texts, tables as association lists in the order of their keys.
--   Control/Records the two tables as one record `Store` (`control_records` by kind, `control_events`),
--                   requests and replies.
--   Control/Exit    how a handler goes on, returns a reply early, or throws; members of JSON objects.
--   Control/Names   operations, effects, `mutation`, `effectSet`, `canonical`.
--   Control/Audit   `append` and `audit.verify`.
--   Control/Lease, Approval, Agents, Channel, Registry
--                   the branches of `control` that read and write one kind of record.
--   Control/Listing `readOnly`.
--   Control/Checks, Begin, Finish, Handle
--                   `begin` with its checks in their order, `finish` and the recovery of the
--                   constructor, and `handle`.
--   Control/History sequences of transactions, in the order in which the mutex and SQLite admit them.
--   TaskState       daemon/src/types.cpp.
--   AgentCard       daemon/src/AgentCard.cpp.
--   Config          `default_agent_for` of daemon/src/Config.cpp.
--   Json            the values of nlohmann::json, with the reads and writes that may throw, as `Try`.
--   Credentials     daemon/src/Credentials.cpp.
--   A2aClient/*     daemon/src/A2AClient.cpp: `Parse` the parsers, `Response` the classification at the
--                   end of `rpcCall`, `Call` its requests on the three bindings, `Operations` the
--                   operations that call it, `Stream` the consumer of event streams, `Subscribe`
--                   `subscribeToTask`, `Discover` and `Probe` the reading of cards and their cache.
--   Url             `split_origin`, `url_encode` and `add_query` of daemon/src/A2AClient.cpp.
--   Tasks           daemon/src/TaskManager.cpp: titles, the operations on tasks, and the merge of the
--                   updates that a subscription brings; daemon/include/kitty_a2a/Task.hpp.
--   Tasks/Materialize, Preview, Outbound
--                   `materializeArtifact`, daemon/src/Artifact.cpp, and the calls that are passed on.
--   Daemon/*        daemon/src/main.cpp: `Route` the agent that is written into a request, `Dispatch`
--                   the operations, `Submit`, `Push`, `Replies` and `Redact` their parts.
--   Base64          `decode_base64` of daemon/src/TaskManager.cpp.
--   Tests, and the module Tests of Control, Tasks, Tasks/Materialize, A2aClient and Daemon
--                   concrete values and runs.
--
-- How the code is read. A handler is a do block over `Exit`: `next` goes on, `return` is a C++ return of
-- a reply, `throw` an exception, whose message is abbreviated. A transaction that throws is rolled
-- back, one that returns a reply commits: `begin` may have written a pending approval before it
-- refuses, and `Begun.refused` carries that store. One reading of the clock and one random id, `Env`,
-- serve a transaction; the code reads the clock at each use, within the same second but for a tick.
-- SHA-256, the serialization of JSON and of numbers, and `enforce_policy` are the fields of
-- `Platform`, without any hypothesis on them. A `std::string` is a native `String` where it is compared
-- and joined, and a list of bytes, `Text`, where it is searched. A member of a request is missing, of
-- another JSON type, or given; members that the control plane only hashes and forwards are one field.
-- Sets of effects are membership functions, which the eight effects make finite. Stored records have
-- their members: the code alone writes them. Counters are natural numbers, as the code's 64-bit
-- integers start at zero and go up by one. The branches of `control` that `readOnly` serves first are not
-- repeated in `control`. `std::filesystem::weakly_canonical` is a parameter. An operation on a
-- task takes the agent's side, `A2AClient`, and the resolution of its endpoint as a record of
-- functions, `Client`; the database of tasks is open. The clock and the ids that an operation draws
-- are arguments. `ttl_seconds` and `limit`, which the code reads as `int`, are integers without bound:
-- outside of `int` the model refuses what the code wraps.
--
-- In the A2A client and the daemon, `json::parse`, `json::dump` and the transports are parameters without
-- any hypothesis; an exception of nlohmann::json is `raised`. An object is the list of its members. A
-- response of a transport is given at the moment of the call. A file system, for the saving of an
-- artifact, says what is in a directory and which calls succeed; the retries of an interrupted `write`
-- are one write. The loop over the events of a chunk, `drain`, is the only one on fuel: each round takes
-- away at least the two bytes of a blank line, so as many rounds as there are bytes are enough. The
-- other loops are structural recursion over lists.
--
-- Not modelled: sockets, threads, SQLite, libcurl, gRPC and YAML, which the code calls; the loading of
-- the configuration; in the task manager, the resolution of credentials for each scheme, `discoverAgent`,
-- `streamMessage`, `subscribeTask`, the threads of its subscriptions and the event that tells of a saved
-- artifact; in the A2A client, the streams of gRPC and `sendStreamingMessage`; in the daemon, the
-- operations `stream_submit`, `subscribe`, `agents`, `discover` and `route.explain`; the columns of the
-- task database, and the framing of the socket.
pub mod Common
pub mod TaskState
pub mod Control
pub mod AgentCard
pub mod Config
pub mod Json
pub mod Credentials
pub mod Url
pub mod Tasks
pub mod A2aClient
pub mod Daemon
pub mod Base64
pub mod Tests
