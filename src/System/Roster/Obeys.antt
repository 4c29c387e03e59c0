-- ===== src/System/Roster/Obeys.antt =====
-- Where the workers (src/mgmt/worker.rs) send the requests of clients, by the specification of the
-- manager.
use weldr.Common.{
  ◌≡◌, ap, sym, subst, ◌∙◌, ◌↔◌, ℕ, Bool, not, none, some, List, [], map-All, All-mapped, All,
  All-both, PartialEq, get_elem?, length,
}
use weldr.Server.{Server}
use weldr.Backend
use weldr.Backend.{ServerState, active, down, state_beq}
use weldr.Pool.{Pool}
use weldr.Pool.Request.{Dispatch, sent, exhausted, request}
use weldr.Health.Watch.{IsSane}
use weldr.Worker.Status.{status}
use weldr.System.{ManagerProcess, Setting, world_of}
use weldr.System.Node.{Node}
use weldr.System.Routes.{AllDown, dead_down}
use weldr.System.Sides.{IsReadable}
use weldr.System.Cluster.{Cluster, Reach, Cluster-Routes}
use weldr.System.Roster.{Roster, stands, Run}
use weldr.System.Roster.Mirrors.{Mirrors}
use weldr.System.Roster.Stands.{Run-Shown}
use weldr.System.Roster.Refines.{Run-stands}

module _ {ℓ} {U : Type ℓ} ⦃e : PartialEq U⦄ where
  -- The servers that were not listed in the pool are down.
  abbrev pub NewDown : Pool U → Roster U → Type 0
  NewDown joined a = All (λ t. status joined t ≡ none → (a.watched t).state ≡ down) a.listed

  -- Within as many rounds as the worker has backends a request is sent to a server that is active for
  -- the specification and was not listed when the worker subscribed, or refused, and that exactly if
  -- every server that was not listed then is down.
  abbrev pub Obeys : Pool U → Roster U → Pool U → Type ℓ
  Obeys joined a worker =
      (d : Dispatch U) × (q : Pool U) × (request (length worker.backends) worker ≡ some (d, q))
      × ((b : Backend.Backend) (server : Server U)
          → d ≡ sent b server
          → (status joined server ≡ none) × (stands a server ≡ some active))
      × ((d ≡ exhausted) ↔ NewDown joined a)

module _ {ℓ κ} {U : Type ℓ} ⦃e : PartialEq U⦄ {C : Type κ} {Chunk S : Type 0}
    (setting : Setting U Chunk S) where
  module _ (m : ManagerProcess U C) (a : Roster U) (joined : Pool U)
      (v : Mirrors setting (world_of m) m.checks a) where
    abbrev bs : List Backend.Backend
    bs = m.mgmt.pool.backends

    abbrev server : Backend.Backend → Server U
    server b = Backend.server m.mgmt.pool.heap b

    abbrev Down : Server U → Type 0
    Down t = status joined t ≡ none → (a.watched t).state ≡ down

    down-same : AllDown joined m.mgmt.pool ↔ NewDown joined a
    down-same = (
      (λ dead. subst (All Down) v.lists (
          map-All Down server bs
            (All-both (λ b t off new. sym t.follows.is ∙ dead_down _ (off new)) bs v.tracks dead))),
      (λ dead.
          All-both (λ b t is new. ap (λ s. not (state_beq s down)) (t.follows.is ∙ is new)) bs
            v.tracks (All-mapped Down server bs (subst (All Down) (sym v.lists) dead))),
    )

  module _ {A : Type 0} (is_server_error : A → Bool) where
    -- If the text of a URL parses as that URL, and the limits of the configuration are at least 2
    -- and fit a `u64`, then in every state that a manager and its workers reach from the manager's
    -- start, each step a turn of the manager, of which each worker gets what it is sent, a step of
    -- one worker, a subscription of a new one, or the end of one, while no listed server is posted
    -- again, numbers for subscribers are left, and each worker that has not ended lists fewer than
    -- 2 ^ 60 backends, stays a subscriber and has fewer than five requests without an answer: if
    -- one of the workers has handled all that was sent to it, then a request of a client to it ends
    -- within as many rounds as it has backends; it goes to a server that the specification, after
    -- events that bring the manager to its state, of which none posts a server that is listed and
    -- down, lists with a counter of consecutive results that says active, and that was not listed
    -- when the worker subscribed, or is refused, and that exactly if the counters of all listed
    -- servers that were not listed then say down.
    pub Cluster-Obeys :
        {c : Cluster U C} {a : Roster U} (i : ℕ) (n : Node U)
        → IsReadable setting.text
        → IsSane setting.config
        → Reach setting is_server_error c
        → Run setting c.manager a
        → get_elem? c.nodes i ≡ some n
        → n.todo ≡ []
        → Obeys n.joined a n.worker
    Cluster-Obeys {c} {a} i n back sane r run there handled =
        let (d, q, ran, goes, refuses) =
          Cluster-Routes setting is_server_error i n back r there handled in
        let same = down-same c.manager a n.joined (Run-Shown setting sane run).0 in
        (
          d,
          q,
          ran,
          (λ b t is.
              let (new, up) = goes b t is in (new, sym ((Run-stands setting sane run).2 t) ∙ up)),
          ((λ out. same.0 (refuses.0 out)), (λ dead. refuses.1 (same.1 dead))),
        )
