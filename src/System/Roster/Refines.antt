-- ===== src/System/Roster/Refines.antt =====
-- What the manager's pool (src/mgmt/mod.rs) says of the servers, and what the specification says.
use weldr.Common.{refl, ap, sym, true, ◌≡◌, map, PartialEq}
use mathlib.Core.Option
use weldr.Server
use weldr.Server.{Server, server_eq}
use weldr.Backend
use weldr.Backend.{Backend, Heap}
use weldr.Health.Watch.{IsSane}
use weldr.Worker.Status.{status}
use weldr.System.{
  ManagerProcess, Setting, world_of, Managed, Event, api, tick, answered, rpc, Allowed,
}
use weldr.System.Roster.{Roster, stands, Run, Admits, begins, turns, empty, observe}
use weldr.System.Roster.Reads.{mirrored-stands}
use weldr.System.Roster.Stands.{Run-Shown}
use weldr.System.Roster.Posted.{posted-added}

module _ {ℓ κ} {U : Type ℓ} ⦃e : PartialEq U⦄ {C : Type κ} {Chunk S : Type 0}
    (setting : Setting U Chunk S) where
  open setting use {hash, config}

  -- If the limits of the configuration are at least 2 and fit a `u64`, then after any events in any
  -- order from the manager's start (requests to the API, ticks of the health timer, answers to the
  -- checks under way, and what comes over RPC), of which none posts a server that is listed and
  -- down, the manager's pool lists the servers that the specification lists after the same events,
  -- in order; the checks under way are of the servers for which it awaits an answer, in order; and
  -- the pool says of every listed server that it is in the state of the specification's counter of
  -- consecutive results, and of no other server anything.
  pub Run-stands :
      {m : ManagerProcess U C} {a : Roster U}
      → IsSane config
      → Run setting m a
      → (map (Backend.server m.mgmt.pool.heap) m.mgmt.pool.backends ≡ a.listed)
        × (map (Backend.server m.mgmt.pool.heap) m.checks ≡ a.awaited)
        × ((t : Server U) → status m.mgmt.pool t ≡ stands a t)
  Run-stands {m} {a} sane r =
      let (v, _) = Run-Shown setting sane r in
      (v.lists, v.awaits, λ t. mirrored-stands setting (world_of m) m.checks a t v)

  Allowed-Admits :
      (m : ManagerProcess U C) (a : Roster U) (ev : Event U C Chunk S)
      → IsSane config
      → Run setting m a
      → Allowed setting m ev
      → Admits setting a ev
  Allowed-Admits m a (api method path body) sane run ok = λ url posted is.
      let (names, _) = posted-added setting m method path body url posted in
      let missing = ok.unlisted method path body url refl names in
      let said = sym ((Run-stands sane run).2 (Server.new url true)) in
      let none_found = ap (Option.map (λ b. (m.mgmt.pool.heap.cell b).state)) missing in
      cc (said, none_found, is)
  Allowed-Admits m a tick sane run ok = tt
  Allowed-Admits m a (answered i r) sane run ok = tt
  Allowed-Admits m a (rpc ev) sane run ok = tt

  -- Whatever the manager comes to while no listed server is posted again, the specification comes along.
  pub Managed-Run :
      {m : ManagerProcess U C}
      → IsSane config
      → Managed setting m
      → (a : Roster U) × Run setting m a
  Managed-Run sane (Managed.begins h) = (empty, begins h)
  Managed-Run sane (Managed.turns {m} ev r ok) =
      let (a, run) = Managed-Run sane r in
      (observe setting a ev, turns ev run (Allowed-Admits m a ev sane run ok))
