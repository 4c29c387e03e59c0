-- ===== src/System/Roster/Mirrors.antt =====
-- How the state of the manager (src/mgmt/mod.rs) stands for the specification: its backends and checks
-- for their servers, and the table of the health checks for the counters.
use weldr.Common.{◌≡◌, ◌≢◌, ap, sym, ◌∙◌, true, false, some, List, map, All, All-map, PartialEq}
use weldr.Server.{Server}
use weldr.Message.{Message}
use weldr.Backend
use weldr.Backend.{Backend, InnerBackend, Heap}
use weldr.Pool.{Pool, find_backend}
use weldr.Health.Check.{World}
use weldr.Health.Watch.{Tracks}
use weldr.Agreement.{pool_of, IsFirst}
use weldr.System.{Setting}
use weldr.System.Roster.{Roster, checkable}

module _ {ℓ} {U : Type ℓ} ⦃e : PartialEq U⦄ where
  -- The first backends of a pool have different servers.
  pub first-apart :
      (p : Pool U) (i b : Backend)
      → IsFirst p i
      → IsFirst p b
      → i ≢ b
      → (p.heap.cell i).server ≢ (p.heap.cell b).server
  first-apart p i b fi fb ne same =
      let found : some i ≡ some b = sym fi.first ∙ ap (find_backend p) same ∙ fb.first in
      ne (cc (found))

  module _ {Chunk S : Type 0} (setting : Setting U Chunk S) where
    open setting use {hash, config}

    pub record Mirrors (w : World U) (checks : List Backend) (a : Roster U) : Type ℓ where
      pub lists : map (Backend.server w.heap) w.pool.backends ≡ a.listed
      pub awaits : map (Backend.server w.heap) checks ≡ a.awaited
      pub tracks :
          All (λ b. Tracks hash config w b (a.watched (w.heap.cell b).server)) w.pool.backends
      pub keyed : All (λ x. IsFirst (pool_of w) x.key) w.health.health_state
      pub calm : (t : Server U) → checkable setting t ≡ false → (a.watched t).count ≡ 0
      pub uncounted :
          All (λ b. (w.heap.cell b).stats ≡ record { failure = 0; success = 0 }) w.pool.backends
      pub asked : All (λ t. checkable setting t ≡ true) a.awaited

    -- What is published has no part in it.
    pub Mirrors-published :
        (w : World U) (ms : List (Message U)) (checks : List Backend) (a : Roster U)
        → Mirrors w checks a
        → Mirrors (record w { published = ms }) checks a
    Mirrors-published w ms checks a v = record {
      lists = v.lists;
      awaits = v.awaits;
      tracks =
          All-map
            (λ b t. record {
              follows = record { is = t.follows.is; counts = t.follows.counts };
              below = t.below;
            })
            w.pool.backends v.tracks;
      keyed = v.keyed;
      calm = v.calm;
      uncounted = v.uncounted;
      asked = v.asked;
    }
