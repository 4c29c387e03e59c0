-- ===== src/Lib.antt =====
-- weldr is an HTTP proxy. A manager process keeps a pool of upstream servers, checks their health,
-- and starts worker processes; the workers subscribe to it over RPC, keep pools of their own by what
-- it publishes, and send the requests of clients to the servers of the pool in turn.
--
-- The parts, and the files that model them:
--   Common        names and lemmas that all share: Boolean tests, lists over the native numbers, and
--                 `PartialEq`, the equality of a derived or foreign `PartialEq`.
--   Stats         src/stats.rs: `Stats`, `new`, `inc_success`, `inc_failure`.
--   Server        src/server.rs: `Server`, `new`, and its equality.
--   Config        src/config.rs: `Config`, `HealthCheck`, `Timeout` and their defaults.
--   Backend       src/pool.rs: `ServerState`, `InnerBackend`, and `Backend`, a reference into a `Heap`.
--   Pool          src/pool.rs: `InnerPool` (`get`, `all`, `add`, `remove`, `find_server` for `find`) and
--                 `Pool` (`add_server`, `remove_server`, `find_backend` for `add`, `remove`, `find`);
--                 Pool/Request: `Pool::request` and the closure that takes the answer.
--   Health        src/mgmt/health.rs: `BackendHealth`, `should_mark_active`, `should_mark_down`;
--                 Health/Check: `run` and the closure that takes an answer.
--   Message       weldr.capnp: the three requests of the manager to a worker.
--   Worker        src/mgmt/worker.rs: the handlers of these requests; Worker/Serving: a worker process
--                 with clients and the manager, as a step relation.
--   Manager       src/mgmt/manager.rs: `Manager`, with `start_workers` on both sides of `fork`;
--                 Manager/Exec: the command line that a child runs; Manager/Publisher: the subscribers, the
--                 publications and the answers to them.
--   Api           src/mgmt/api.rs: `Mgmt::call` with `index`, the listing and `add_server`, on the
--                 manager's pool and on the `Manager`.
--   Proxy         src/proxy.rs: the Via header, the filters, `map_request`, `map_response`, and
--                 `forward`, what `Proxy::call` sends to the server that the pool gives; Proxy/Call:
--                 `Proxy::call` on the pool, and what follows when the answer comes (`complete`).
--   Agreement     the manager's pool and a worker's over rounds of health checks.
--   System        src/mgmt/mod.rs: `react`, one turn of the loop in `run`, and the manager with a worker
--                 that subscribes at any time as a step relation, the requests between them in order;
--                 System/Cluster: the manager with all workers, each of which subscribes and ends at any
--                 time; System/Roster: a specification of the manager, in which a post that names a
--                 server with a URL lists it unless it is listed, a tick awaits an answer for each
--                 listed server that has a URL to be checked at and takes the others down, and an
--                 answer is counted by the counter of consecutive results of its server alone.
--   Main          src/weldr.rs: the options as data (Main/Args), and `main` as the calls that reach
--                 outside, with `setup_listener`; `serve` and
--                 `proxy` of src/proxy.rs, `run` of src/mgmt/mod.rs as far as it sets up what is run, and
--                 `listen_rpc` and `subscription` for `listen` of
--                 src/mgmt/manager.rs and `subscribe` of src/mgmt/worker.rs.
--   TestServer    src/test-server.rs: `large`, `call` and `main`.
-- The other files beneath a component hold its lemmas, or in Tests and Samples runs at concrete inputs, and
-- in UnitTests the tests of the source file on the model.
--
-- How the code is read:
-- - `Rc<RefCell<_>>` is a reference: an address of a heap that the operations take and return, so two
--   lists that share a backend see each other's changes. No operation borrows a cell twice, so the
--   run-time borrow checks are not modelled.
-- - A `usize` or `u64` is a number that wraps at 2 ^ 64, an `i32` its bit pattern modulo 2 ^ 32, as in
--   a release build.
-- - The `loop` of `InnerPool::get` runs on fuel, one unit for a round, and `none` means that it ran out.
--   As many units as there are backends are enough where `last_used` is an index.
-- - `HashMap<Backend, _>` keeps for each entry the hash that the key had when it was stored, and compares
--   keys by what they point to now, since the state and the counters of a key change while it is stored.
--   The hash function is a parameter, and nothing is assumed of it. Of several entries that match, the
--   oldest is taken.
-- - A future is split where it waits: the part that runs now, and the closure that runs with the answer.
--   Interleavings are lists of events, or steps of a relation.
-- - A panic in a handler of the API is a reply of the model; the process ends at it, while `react` goes on
--   from the state that the handler leaves. That adds runs to those of the program and takes none away.
-- - `HashMap<u64, _>` of the subscribers is the list of its entries.
--
-- Parameters: hyper's `Uri` (a type with its equality, `from_str` and `Display`), its status codes
-- (`is_success`, `is_server_error`), its headers, serde_json, the RPC client of a subscriber, `fork`, the
-- path of the executable, what clap makes of the options and the command line, the parser of addresses,
-- files, and whether a call outside succeeds.
--
-- Not modelled: sockets, TLS, timers and the event loop itself, of which any order of events is allowed;
-- logging, but for the panic of `env_logger::init` in `main`; the getters of the counters and of a server, which are the fields of the records; and the
-- benchmark and the integration test, which start the programs.
pub mod Common
pub mod Stats
pub mod Server
pub mod Backend
pub mod Pool
pub mod Config
pub mod Message
pub mod Health
pub mod Worker
pub mod Manager
pub mod Api
pub mod Proxy
pub mod Agreement
pub mod System
pub mod Main
pub mod TestServer
