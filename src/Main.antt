-- ===== src/Main.antt =====
-- src/weldr.rs: `main`, which is both the manager's program and its workers', with what it calls to set up
-- sockets: `serve` and `proxy` of src/proxy.rs, `run` of src/mgmt/mod.rs, `listen` of src/mgmt/manager.rs
-- and `subscribe` of src/mgmt/worker.rs. clap's `get_matches` is a parameter, what it makes of the options;
-- so are `SocketAddr` with its parser, and what the system makes of each call.
pub mod Args
pub mod Walk
pub mod Script
pub mod Spawned
mod Tests
use weldr.Common.{ℕ, String, Bool, true, Option, none, some, List, [], ◌∷◌, ◌++◌, if◌then◌else◌}
use weldr.Config
use weldr.Main.Args.{App, Matches, app}
use weldr.Config.{Config}

-- What is run: the proxy on its listener, with its configuration, or the loop of the manager, with the
-- time between two health checks.
pub data Future : Type 0 where
  proxying : Config → Future
  managing : ℕ → Future

-- The calls of `main` that reach outside of it, in the manager and in a worker, and those that follow for
-- each connection.
pub data Action (Addr : Type 0) : Type 0 where
  init_logger new_core : Action Addr
  subscribe : Addr → Action Addr
  connect : Addr → Action Addr
  spawn_rpc_system send_subscribe : Action Addr
  new_v4 : Action Addr
  reuse_address reuse_port : Bool → Action Addr
  bind : Addr → Action Addr
  listen : ℕ → Action Addr
  from_listener : Addr → Action Addr
  local_addr : Action Addr
  run_core : Future → Action Addr
  start_workers : ℕ → Action Addr
  bind_tcp : Addr → Action Addr
  set_nodelay : Action Addr
  new_connector : ℕ → Action Addr
  connect_timeout read_timeout write_timeout : Option ℕ → Action Addr
  bind_connection : Action Addr

-- The calls made, and the value; none where a call fails, or an `unwrap` or an `expect` panics, at which
-- the program ends.
abbrev pub Run : Type 0 → Type 0 → Type 0
Run Addr A = List (Action Addr) × Option A

infixl 5 ◌>>=◌
abbrev pub ◌>>=◌ : {Addr A B : Type 0} → Run Addr A → (A → Run Addr B) → Run Addr B
(done, none) >>= next = (done, none)
(done, some a) >>= next = let (more, r) = next a in (done ++ more, r)

-- `unwrap_or`
abbrev pub unwrap_or : {A : Type 0} → Option A → A → A
unwrap_or none other = other
unwrap_or (some a) other = a

-- `unwrap` and `expect`
abbrev pub expect : {Addr A : Type 0} → Option A → Run Addr A
expect a = ([], a)

module _ {Addr : Type 0} (fails : Action Addr → Bool) where
  -- A call outside
  abbrev pub perform : Action Addr → Run Addr (Unit {0})
  perform a = (a ∷ [], if fails a then none else some tt)

  unfoldable pub setup_listener : Addr → Run Addr (Unit {0})
  setup_listener addr = do
    _ ← perform new_v4
    _ ← perform (reuse_address true)
    _ ← perform (reuse_port true)
    _ ← perform (bind addr)
    _ ← perform (listen 128)
    perform (from_listener addr)

  -- `proxy::serve`, on the listener
  abbrev pub serve : Config → Run Addr Future
  serve config = do _ ← perform local_addr; ([], some (proxying config))

  -- `proxy::proxy`, for each connection
  unfoldable pub proxy : Config → Run Addr (Unit {0})
  proxy config = do
    _ ← perform set_nodelay
    _ ← perform (new_connector 4)
    _ ← perform (connect_timeout config.timeout.connect)
    _ ← perform (read_timeout config.timeout.read)
    _ ← perform (write_timeout config.timeout.write)
    perform bind_connection

  -- `mgmt::run`
  unfoldable pub run : Addr → Config → Run Addr (Unit {0})
  run sock config = do
    _ ← perform (bind_tcp sock)
    _ ← perform local_addr
    perform (run_core (managing config.health_check.interval))

  -- `manager::capnp::listen`, which spawns the rest, and what that does with each connection
  abbrev pub listen_rpc : Addr → Run Addr (Unit {0})
  listen_rpc addr = perform (bind_tcp addr)

  unfoldable pub accept : Run Addr (Unit {0})
  accept = do _ ← perform set_nodelay; perform spawn_rpc_system

  -- `worker::subscribe`, which `main` only spawns: with a value at its end there is a response.
  unfoldable pub subscription : Addr → Run Addr (Unit {0})
  subscription addr = do
    _ ← perform (connect addr)
    _ ← perform set_nodelay
    _ ← perform spawn_rpc_system
    perform send_subscribe

  -- The branch of a worker
  unfoldable pub run_worker : Addr → Addr → (String → Option String) → Run Addr (Unit {0})
  unfolding setup_listener
  run_worker internal_addr ip matches = do
    _ ← expect (matches "id")
    _ ← perform (subscribe internal_addr)
    _ ← setup_listener ip
    srv ← serve Config.default
    perform (run_core srv)

  module _ (parse : String → Option Addr) where
    -- The branch of the manager
    unfoldable pub run_as_manager : Matches → Addr → Run Addr (Unit {0})
    unfolding run
    run_as_manager matches internal_addr = do
      _ ← listen_rpc internal_addr
      _ ← perform (start_workers 5)
      admin_ip ← expect (parse (unwrap_or (matches.value_of "worker") "0.0.0.0:8687"))
      run admin_ip Config.default

    -- `main`, for the arguments of the command line
    unfoldable pub main : (App → List String → Option Matches) → List String → Run Addr (Unit {0})
    unfolding run_worker run_as_manager
    main get_matches args = do
      _ ← perform init_logger
      matches ← expect (get_matches app args)
      _ ← perform new_core
      internal_addr ← expect (parse "127.0.0.1:4000")
      ip ← expect (parse (unwrap_or (matches.value_of "worker") "0.0.0.0:8080"))
      elim (matches.subcommand_matches "worker") [
        | some own ↦ run_worker internal_addr ip own
        | none ↦ run_as_manager matches internal_addr
      ]
