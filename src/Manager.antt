-- ===== src/Manager.antt =====
-- src/mgmt/manager.rs: the manager with its workers. Its subscribers are in `Manager.Publisher`.
-- Parameters are the operating system's: `fork`, for each worker, and the path of the executable with
-- its text. `exec` returns only if it fails, at which the child panics.
pub mod Exec
pub mod Publisher
pub mod Keys
pub mod InFlight
pub mod Delivery
pub mod Start
mod Tests
use weldr.Common.{ℕ, zero, suc, String, Option, none, some, List, [], ◌∷◌, ◌++◌}
use weldr.Manager.Exec.{Command, worker_command}

-- `io::Result`
pub data IoResult {ℓ} (A : Type ℓ) : Type ℓ where
  ok : A → IoResult A
  err : ℕ → IoResult A

-- nix's `ForkResult`: in the parent, with the child's pid, or in the child.
pub data ForkResult : Type 0 where
  parent : ℕ → ForkResult
  child : ForkResult

-- What comes of a computation in the process that runs it: a result, or that the process goes on with
-- another program, or a panic.
pub data Outcome {ℓ} (A : Type ℓ) : Type ℓ where
  returns : IoResult A → Outcome A
  execs : Command → Outcome A
  panics : Outcome A

infixl 5 ◌>>=◌
abbrev pub ◌>>=◌ {ℓ κ} : {A : Type ℓ} {B : Type κ} → Outcome A → (A → Outcome B) → Outcome B
returns (ok a) >>= f = f a
returns (err e) >>= f = returns (err e)
execs command >>= f = execs command
panics >>= f = panics

-- `expect` and `unwrap`
abbrev pub expect {ℓ} : {A : Type ℓ} → Option A → Outcome A
expect none = panics
expect (some a) = returns (ok a)

pub record Worker : Type 0 where
  pub id : ℕ
  pub pid : ℕ

-- The numbers of `count` workers from `id` on.
abbrev pub ids : ℕ → ℕ → List ℕ
ids id zero = []
ids id (suc count) = id ∷ ids (suc id) count

-- `Manager`, with what its `Inner` holds.
pub record Manager {ℓ κ} (C : Type ℓ) (U : Type κ) : Type (ℓ ⊔ κ) where
  pub workers : List Worker
  pub publisher : Publisher.Publisher C U

module _ {ℓ κ} {C : Type ℓ} {U : Type κ} where
  unfoldable pub new : Manager C U
  unfolding Publisher.new
  new = record { workers = []; publisher = Publisher.new }

  unfoldable pub publish_new_server : Manager C U → U → Manager C U
  unfolding Publisher.publish_new_server
  publish_new_server m url = record m { publisher = Publisher.publish_new_server url m.publisher }

  unfoldable pub publish_server_state_down : Manager C U → U → Manager C U
  unfolding Publisher.publish_server_state_down
  publish_server_state_down m url = record m {
    publisher = Publisher.publish_server_state_down url m.publisher;
  }

  unfoldable pub publish_server_state_active : Manager C U → U → Manager C U
  unfolding Publisher.publish_server_state_active
  publish_server_state_active m url = record m {
    publisher = Publisher.publish_server_state_active url m.publisher;
  }

  -- The closure of `and_then`: the workers are recorded.
  abbrev pub extend : Manager C U → Outcome (List Worker) → Manager C U × Outcome (Unit {0})
  extend m (returns (ok ws)) = (record m { workers = m.workers ++ ws }, returns (ok tt))
  extend m (returns (err e)) = (m, returns (err e))
  extend m (execs command) = (m, execs command)
  extend m panics = (m, panics)

module _ {PathBuf : Type 0} (current_exe : Option PathBuf) (to_str : PathBuf → Option String)
    (fork : ℕ → IoResult ForkResult) where
  unfoldable pub start_worker : ℕ → Outcome Worker
  unfolding worker_command
  start_worker id = do
    path ← expect current_exe
    side ← returns (fork id)
    elim side [
      | parent pid ↦ returns (ok (record { id = id; pid = pid }))
      | child ↦ do text ← expect (to_str path); execs (worker_command text id)
    ]

  -- `(id..id + count).map(start_worker).collect()`, which stops at the first error
  unfoldable pub start_from : ℕ → ℕ → Outcome (List Worker)
  unfolding start_worker
  start_from id zero = returns (ok [])
  start_from id (suc count) = do
    w ← start_worker id
    ws ← start_from (suc id) count
    returns (ok (w ∷ ws))

  -- The manager then, and what it returns.
  unfoldable pub start_workers {ℓ κ} :
      {C : Type ℓ} {U : Type κ} → Manager C U → ℕ → Manager C U × Outcome (Unit {0})
  unfolding start_from
  start_workers m count = extend m (start_from 0 count)
