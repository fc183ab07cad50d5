-- ===== src/Lib.antt =====
-- A verification library for Distributed Chord Infrastructure, a Chord ring of processes that keep a
-- replicated key-value store and run jobs (python).
--
-- Parts, and the files that model them:
--   Common             numbers, texts, options, lists, and the dictionary of python as a list of
--                      pairs in the order of insertion.
--   Ring               chord/node.py: M, sha1_id and in_range. SHA-1 is the parameter `digest`.
--   Text               `str.strip`, and the decimal digits of a number.
--   Records            the values of the store: tasks, results, worker lists, jobs, other values.
--   Node               chord/node.py: ChordNode and its methods that make no remote call. The lock
--                      is the boundary of a step; the snapshot file is a field of the node.
--   Network            the processes by their addresses, and an `Action`: a computation over them
--                      that returns or raises, and keeps what was written before an exception. The
--                      network is the parameter `World`: it delivers, drops, or loses the reply of
--                      each call.
--   Transport          chord/transport.py: _request and the calls of HttpTransport, each with the
--                      handler of chord/server.py that answers.
--   Lookup             chord/node.py: find_successor; chord/server.py: routed_put, routed_get,
--                      routed_delete.
--   Maintenance        chord/node.py: join, stabilize, fix_fingers, check_predecessor, leave.
--   Jobs               chord/job.py and chord/worker.py.
--   Schema             storage/schema.py.
--   Replication        storage/replication.py, the replica calls of chord/transport.py, and the
--                      handlers store_replica_local, get_replica_local and delete_replica_local of
--                      storage/task_service.py.
--   Tasks              the rest of TaskService in storage/task_service.py.
--   Results            storage/result_record.py and storage/result_service.py.
--   Assignments        storage/worker_assignment.py, with its calls of chord/transport.py.
--   Registry           chord/worker_registry.py; Registry.Ranking the scores, with the weights of
--                      chord/worker_config.py.
--   Retry              chord/retry.py.
--   Stores             the calls that Recovery and Frontend make of the result service and of the
--                      assignment service, as an interface, and its implementation by the processes.
--   Recovery           chord/recovery.py: the decision and the records; Recovery.Manager one attempt;
--                      Recovery.Scan the detection methods and the scan.
--   Frontend           chord/server.py: /createTask; Frontend.Completion: /getStatus,
--                      /internal/results/<id>/complete and /workers/heartbeat.
--   Activity           chord/activity.py.
--
-- A lookup takes fuel, one unit for each process it visits. A hop that comes nearer to the
-- identifier can be repeated fewer than 2 ^ m = 256 times, so a lookup in a ring at rest is given 256
-- units. The error `out_of_fuel` is the model's own, and no handler of the program catches it.
--
-- Times are natural numbers, in the unit of the durations they are compared with; the arithmetic of
-- the placement score, which is done with floats, is a parameter.
--
-- Not modelled: the front ends' decoding of requests, their pages and dashboards; the language model
-- agents, whose replies the program does not determine; the execution of scripts; the simulator; and
-- all timing but the time stamps of records and the waits of the retry helper.
pub mod Common
pub mod Ring
pub mod Text
pub mod Records
pub mod Node
pub mod Network
pub mod Transport
pub mod Lookup
pub mod Maintenance
pub mod Jobs
pub mod Schema
pub mod Replication
pub mod Tasks
pub mod Results
pub mod Assignments
pub mod Registry
pub mod Retry
pub mod Stores
pub mod Recovery
pub mod Frontend
pub mod Activity
