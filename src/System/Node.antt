-- ===== src/System/Node.antt =====
-- The steps of a worker (src/mgmt/worker.rs, src/pool.rs) beside the manager.
use weldr.Common.{ℕ, ◌+◌, ◌^◌, ◌<◌, ◌≡◌, Bool, some, List, ◌∷◌, length, PartialEq}
use weldr.Message.{Message}
use weldr.Backend.{Backend}
use weldr.Pool.{Pool}
use weldr.Pool.Request.{Answer, request, Dispatch, on_answer}
use weldr.Api.{Text}
use weldr.Worker.{Promise, ok, add_server, mark_server_down, mark_server_active}

-- A worker that is the manager's subscriber `id`, with the requests to it that it has not handled yet, and
-- the manager's pool as it was when the worker subscribed, which no step looks at.
pub record Node {ℓ} (U : Type ℓ) : Type ℓ where
  pub id : ℕ
  pub worker : Pool U
  pub todo : List (Message U)
  pub joined : Pool U

-- What a worker makes of a request of the manager, in which the URL is text.
unfoldable pub receive {ℓ} :
    {U : Type ℓ} ⦃e : PartialEq U⦄ → Text U → Pool U → Message U → Promise (Pool U)
unfolding add_server mark_server_down mark_server_active
receive text p (Message.add_server url) = add_server text.parse p (some (text.display url))
receive text p (Message.mark_server_down url) =
    mark_server_down text.parse p (some (text.display url))
receive text p (Message.mark_server_active url) =
    mark_server_active text.parse p (some (text.display url))

module _ {ℓ} {U : Type ℓ} ⦃e : PartialEq U⦄ (text : Text U) where
  -- What a worker does, with its pool and what it has not handled: it handles a request of the
  -- manager, or takes a request of a client or the answer to one. A list holds fewer than 2 ^ 60
  -- references, or `push` panics.
  pub data WorkerStep {A : Type 0} (is_server_error : A → Bool) (p : Pool U) (ms : List (Message U))
      : Pool U → List (Message U) → Type ℓ where
    handles :
        (m : Message U) (rest : List (Message U)) {q : Pool U}
        → ms ≡ m ∷ rest
        → length p.backends + 1 < 2 ^ 60
        → receive text p m ≡ ok q
        → WorkerStep is_server_error p ms q rest
    requests :
        (fuel : ℕ) {d : Dispatch U} {q : Pool U}
        → request fuel p ≡ some (d, q)
        → WorkerStep is_server_error p ms q ms
    completes :
        (b : Backend) (a : Answer A)
        → WorkerStep is_server_error p ms
            (record p { heap = on_answer is_server_error p.heap b a })
            ms
