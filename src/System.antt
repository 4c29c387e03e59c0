-- ===== src/System.antt =====
-- The manager process as its event loop runs it (src/mgmt/mod.rs), and with it one of its workers: the
-- API's requests, the ticks of the health timer, the answers to the checks and what comes over RPC, one
-- at a time in any order. The requests of the manager reach a worker in the order in which they were
-- sent, as Cap'n Proto delivers the calls on one client.
pub mod Channel
pub mod Additions
pub mod Joined
pub mod Node
pub mod Turns
pub mod Posts
pub mod Rpc
pub mod Sides
pub mod Sound
pub mod Alone
pub mod Heard
pub mod Agrees
pub mod Routes
pub mod Settles
pub mod Cluster
pub mod Roster
mod Samples
mod Tests
use weldr.Common.{
  ℕ, suc, ◌+◌, ◌^◌, ◌<◌, ◌≡◌, ◌≢◌, String, Bool, true, false, Option, none, some, List, [], ◌∷◌,
  ◌++◌, map, get_elem?, length, drop, PartialEq, not, ◌||◌, nat_beq,
}
use weldr.Config.{Config}
use weldr.Message
use weldr.Message.{Message}
use weldr.Server
use weldr.Backend.{Backend, InnerBackend, Heap}
use weldr.Pool.{Pool, default, find_backend}
use weldr.Pool.Request.{Answer, request, Dispatch, on_answer}
use weldr.Health
use weldr.Health.{BackendHealth}
use weldr.Health.Check.{World, CheckResult, run, on_result}
use weldr.Manager
use weldr.Manager.Publisher
use weldr.Manager.Publisher.{Publisher, remove_at, step}
use weldr.Manager.Keys.{count}
use weldr.Agreement.{pool_of}
use weldr.Api
use weldr.Api.{Mgmt, Method, Json, Text, call}
use weldr.Api.Servers.{Names}
use weldr.Manager.InFlight.{IsSound}
use weldr.Worker.{Promise, ok, add_server, mark_server_down, mark_server_active}
use weldr.System.Channel.{to, has, publish_all}
use weldr.System.Node.{WorkerStep}

-- The manager process: what the API serves, the health table, and the checks under way.
pub record ManagerProcess {ℓ κ} (U : Type ℓ) (C : Type κ) : Type (ℓ ⊔ κ) where
  pub mgmt : Mgmt U C
  pub health : BackendHealth
  pub checks : List Backend

-- One thing that happens to it. An answer is to the check at an index of those under way.
pub data Event {ℓ κ} (U : Type ℓ) (C : Type κ) (Chunk S : Type 0) : Type (ℓ ⊔ κ) where
  api : Method → String → Option Chunk → Event U C Chunk S
  tick : Event U C Chunk S
  answered : ℕ → CheckResult S → Event U C Chunk S
  rpc : Publisher.Event C U → Event U C Chunk S

-- What the code takes from elsewhere, and the configuration.
pub record Setting {ℓ} (U : Type ℓ) (Chunk S : Type 0) : Type ℓ where
  pub json : Json Chunk
  pub text : Text U
  pub hash : InnerBackend U → ℕ
  pub is_success : S → Bool
  pub config : Config

module _ {ℓ κ} {U : Type ℓ} {C : Type κ} where
  abbrev pub world_of : ManagerProcess U C → World U
  world_of m = record {
    heap = m.mgmt.pool.heap;
    pool = m.mgmt.pool.inner;
    health = m.health;
    published = [];
  }

  -- What the health checks did, with what they published.
  unfoldable pub commit : ManagerProcess U C → World U → List Backend → ManagerProcess U C
  unfolding publish_all
  commit m w checks = record {
    mgmt = record {
      pool = pool_of w;
      manager = record m.mgmt.manager {
        publisher = publish_all w.published m.mgmt.manager.publisher;
      };
    };
    health = w.health;
    checks = checks;
  }

module _ {ℓ κ} {U : Type ℓ} ⦃e : PartialEq U⦄ {C : Type κ} {Chunk S : Type 0}
    (setting : Setting U Chunk S) where
  open setting use {json, text, hash, is_success, config}

  -- One turn of the event loop. Where a handler of the API panics the process ends; `react` goes on from
  -- the state that the handler leaves, which only adds to what may come about.
  unfoldable pub react : ManagerProcess U C → Event U C Chunk S → ManagerProcess U C
  unfolding call run on_result commit step remove_at
  react m (api method path body) = record m { mgmt = (call json text m.mgmt method path body).0 }
  react m tick =
      let (w, sent) = run text.parse text.display config (world_of m) in
      commit m w (m.checks ++ map (λ x. x.0) sent)
  react m (answered i r) = elim (get_elem? m.checks i) [
    | none ↦ m
    | some b ↦ commit m (on_result hash is_success config (world_of m) b r) (remove_at m.checks i)
  ]
  react m (rpc ev) = record m {
    mgmt = record m.mgmt {
      manager = record m.mgmt.manager { publisher = step m.mgmt.manager.publisher ev };
    };
  }

-- The manager before anything happens to it.
unfoldable pub begin {ℓ κ} : {U : Type ℓ} {C : Type κ} → Heap U → ManagerProcess U C
unfolding default Manager.new Health.new
begin h = record { mgmt = Api.new (default h) Manager.new; health = Health.new; checks = [] }

-- The manager, and the pool of the worker that is its subscriber `id`, with the requests to it that it
-- has not handled yet.
pub record System {ℓ κ} (U : Type ℓ) (C : Type κ) : Type (ℓ ⊔ κ) where
  pub manager : ManagerProcess U C
  pub id : ℕ
  pub worker : Pool U
  pub todo : List (Message U)

-- Whether what comes over RPC leaves the subscription `k`: it does unless that is dropped, or a request
-- to it fails.
unfoldable pub spares {ℓ κ} :
    {C : Type ℓ} {U : Type κ} → ℕ → Publisher C U → Publisher.Event C U → Bool
spares k p (Publisher.subscribes client) = true
spares k p (Publisher.drops j) = not (nat_beq j k)
spares k p (Publisher.publishes m) = false
spares k p (Publisher.replies i fine) = elim (get_elem? p.pending i) [
  | none ↦ true
  | some (j, _) ↦ fine || not (nat_beq j k)
]

module _ {ℓ κ} {U : Type ℓ} ⦃e : PartialEq U⦄ {C : Type κ} {Chunk S : Type 0}
    (setting : Setting U Chunk S) where
  -- The manager's turn: what it sends the worker comes behind what that has not handled.
  unfoldable pub advance : System U C → Event U C Chunk S → System U C
  unfolding react to
  advance s ev =
      let m = react setting s.manager ev in
      let old = s.manager.mgmt.manager.publisher.pending in
      record s {
        manager = m;
        todo = s.todo ++ to s.id (drop (length old) m.mgmt.manager.publisher.pending);
      }

  -- A number is left for a subscriber, and no server is posted that is listed already.
  pub record Allowed (m : ManagerProcess U C) (ev : Event U C Chunk S) : Type (ℓ ⊔ κ) where
    pub ids_left : m.mgmt.manager.publisher.next_id + 1 < 2 ^ 64
    pub unlisted :
        (method : Method) (path : String) (body : Option Chunk) (url : U)
        → ev ≡ api method path body
        → Names setting.json setting.text body url
        → find_backend m.mgmt.pool (Server.new url true) ≡ none

  -- What the manager alone can come to.
  pub data Managed : ManagerProcess U C → Type (ℓ ⊔ κ) where
    begins : (h : Heap U) → Managed (begin h)
    turns :
        {m : ManagerProcess U C} (ev : Event U C Chunk S)
        → Managed m
        → Allowed m ev
        → Managed (react setting m ev)

  -- The subscription `id` stays, and has fewer than five requests without an answer.
  pub record Holds (m : ManagerProcess U C) (id : ℕ) (ev : Event U C Chunk S) : Type (ℓ ⊔ κ) where
    pub room : count id (react setting m ev).mgmt.manager.publisher.pending < 5
    pub stays : (r : Publisher.Event C U) → ev ≡ rpc r → spares id m.mgmt.manager.publisher r ≡ true

  -- One step of the two.
  pub data Step {A : Type 0} (is_server_error : A → Bool) (s : System U C)
      : System U C → Type (ℓ ⊔ κ) where
    manages :
        (ev : Event U C Chunk S)
        → Allowed s.manager ev
        → Holds s.manager s.id ev
        → Step is_server_error s (advance s ev)
    works :
        {q : Pool U} {rest : List (Message U)}
        → WorkerStep setting.text is_server_error s.worker s.todo q rest
        → Step is_server_error s (record s { worker = q; todo = rest })

  -- A worker subscribes, with an empty pool, in a process with the heap `h`.
  unfoldable pub enter : ManagerProcess U C → C → Heap U → System U C
  unfolding react default
  enter m client h = record {
    manager = react setting m (rpc (Publisher.subscribes (some client)));
    id = m.mgmt.manager.publisher.next_id;
    worker = default h;
    todo = [];
  }

  -- What is reached with a worker that subscribed when the manager's pool was `joined`.
  pub data Reach {A : Type 0} (is_server_error : A → Bool) (joined : Pool U)
      : System U C → Type (ℓ ⊔ κ) where
    start :
        (m : ManagerProcess U C) (client : C) (h : Heap U)
        → m.mgmt.pool ≡ joined
        → Managed m
        → m.mgmt.manager.publisher.next_id + 1 < 2 ^ 64
        → Reach is_server_error joined (enter m client h)
    next :
        {s t : System U C}
        → Reach is_server_error joined s
        → Step is_server_error s t
        → Reach is_server_error joined t
