-- ===== src/Health/Check.antt =====
-- `run` of src/mgmt/health.rs: a round of health checks in the manager. The client's answers come
-- later, in any order: `run` sends the requests, and `on_result` is the closure behind `then`, with
-- the answer that came. Parameters: hyper's `Uri` with its `FromStr` and `Display`, and
-- `StatusCode::is_success`.
use Prim.Native.String.{◌++◌}
use weldr.Common.{
  ℕ, String, Bool, Option, none, some, List, [], ◌∷◌, ◌++◌ as append, if◌then◌else◌, PartialEq,
}
use weldr.Config.{Config}
use weldr.Message.{Message, mark_server_down, mark_server_active}
use weldr.Backend
use weldr.Backend.{Backend, InnerBackend, Heap}
use weldr.Pool
use weldr.Pool.{InnerPool}
use weldr.Health.{BackendHealth, should_mark_active, should_mark_down}

-- What `run` works on; `published` holds the calls of `manager.publish_server_state_…`, in order.
pub record World {ℓ} (U : Type ℓ) : Type ℓ where
  pub heap : Heap U
  pub pool : InnerPool
  pub health : BackendHealth
  pub published : List (Message U)

pub data CheckResult (S : Type 0) : Type 0 where
  response : S → CheckResult S
  error : CheckResult S

module _ {ℓ} {U : Type ℓ} where
  -- The three statements that enable or disable a backend in the pool.
  unfoldable pub enable : World U → Backend → World U
  enable w b =
      let h = Backend.mark_active w.heap b in
      record w {
        heap = h;
        published = append w.published (mark_server_active (Backend.server h b).url ∷ []);
      }

  unfoldable pub disable : World U → Backend → World U
  disable w b =
      let h = Backend.mark_down w.heap b in
      record w {
        heap = h;
        published = append w.published (mark_server_down (Backend.server h b).url ∷ []);
      }

  module _ (parse : String → Option U) (display : U → String) where
    -- The part of the loop's body before the request, and the URL to request, if any.
    unfoldable pub start_check : Config → World U → Backend → World U × Option U
    unfolding disable
    start_check config w b =
        elim (parse (display (Backend.server w.heap b).url ++ config.health_check.uri_path)) [
          | none ↦ (if Backend.is_active w.heap b then disable w b else w, none)
          | some url ↦ (w, some url)
        ]

    -- The loop: the requests sent, each with its backend.
    unfoldable pub start_checks : Config → World U → List Backend → World U × List (Backend × U)
    unfolding start_check
    start_checks config w [] = (w, [])
    start_checks config w (b ∷ bs) =
        let (w', sent) = start_check config w b in
        let (w'', rest) = start_checks config w' bs in
        (w'', elim sent [ none ↦ rest | some url ↦ (b, url) ∷ rest ])

    unfoldable pub run : Config → World U → World U × List (Backend × U)
    unfolding start_checks
    run config w = start_checks config w (Pool.all w.pool)

  module _ ⦃e : PartialEq U⦄ (hash : InnerBackend U → ℕ) where
    -- The branch of a response that is a success, and that of all else.
    unfoldable pub on_pass : Config → World U → Backend → World U
    on_pass config w b =
        let (m, enabling) = should_mark_active hash w.heap w.health b config.health_check.passes in
        let w' = record w { health = m } in if enabling then enable w' b else w'

    unfoldable pub on_fail : Config → World U → Backend → World U
    on_fail config w b =
        let (m, disabling) = should_mark_down hash w.heap w.health b config.health_check.failures in
        let w' = record w { health = m } in if disabling then disable w' b else w'

    -- The closure behind `client.get(url).then`
    unfoldable pub on_result :
        {S : Type 0} → (S → Bool) → Config → World U → Backend → CheckResult S → World U
    unfolding on_pass on_fail enable disable should_mark_active should_mark_down
    on_result is_success config w b (response status) =
        if is_success status then on_pass config w b else on_fail config w b
    on_result is_success config w b error = on_fail config w b
