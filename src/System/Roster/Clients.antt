-- ===== src/System/Roster/Clients.antt =====
-- A request of a client (src/proxy.rs) in a worker of the cluster, by the specification of the manager.
use weldr.Common.{
  ◌≡◌, ◌≢◌, ◌⊎◌, inl, inr, ap, ◌∙◌, ℕ, String, Bool, Option, none, some, [], PartialEq, get_elem?,
  length,
}
use weldr.Server.{Server}
use weldr.Backend.{Backend, active}
use weldr.Pool.{Pool}
use weldr.Health.Watch.{IsSane}
use weldr.Worker.Status.{status}
use weldr.Proxy.{forward, HeaderOps, UriOps, Request, ClientRequest, hidden}
use weldr.Proxy.Headers.{Laws}
use weldr.Proxy.Forward.{forward_lem, version_cases, map_request_lem}
use weldr.Proxy.Call.{call, refused, asks, call-asks, call-refused, Dispatch-cases, HasUrl}
use weldr.System.{Setting}
use weldr.System.Node.{Node}
use weldr.System.Sides.{IsReadable}
use weldr.System.Cluster.{Cluster, Reach}
use weldr.System.Roster.{Roster, stands, Run}
use weldr.System.Roster.Obeys.{NewDown, Obeys, Cluster-Obeys}

module _ {H V M U B : Type 0} ⦃e : PartialEq U⦄ (ops : HeaderOps H V) (text : UriOps U)
    (host_value : String → Option ℕ → V) where
  -- What a worker makes of a request: it refuses it, and every server that was not listed when the
  -- worker subscribed is down; or what `forward` makes of it goes to a server that is active and was not
  -- listed then.
  abbrev pub Answers : Pool U → Roster U → Pool U → Request H M U B → Type 0
  Answers joined a worker req =
      let started = call ops text host_value (length worker.backends) worker req in
      ((q : Pool U) × (started ≡ refused q) × NewDown joined a)
      ⊎ ((b : Backend) × (server : Server U) × (out : ClientRequest H M U B) × (q : Pool U)
          × (started ≡ asks b out q)
          × (stands a server ≡ some active)
          × (status joined server ≡ none)
          × (forward ops text host_value server req ≡ some out))

module _ {H V M U B : Type 0} ⦃e : PartialEq U⦄ (ops : HeaderOps H V)
    (same : String → String → Bool) (laws : Laws ops same) (text : UriOps U)
    (host_value : String → Option ℕ → V) where
  Obeys-Answers :
      (joined : Pool U) (a : Roster U) (worker : Pool U) (req : Request H M U B)
      → req.version ≢ hidden
      → ((t : Server U) → stands a t ≡ some active → HasUrl text req t)
      → Obeys joined a worker
      → Answers ops text host_value joined a worker req
  Obeys-Answers joined a worker req known reached (d, q, ran, goes, refuses) =
      let n = length worker.backends in
      let (number, is) = version_cases req.version known in
      let (_, mapped, _) = map_request_lem ops same laws req number is in
      elim (Dispatch-cases d) [
        | inl out ↦
            let none_up = ran ∙ ap (λ d. some (d, q)) out in
            inl (q, call-refused ops text host_value n worker q req _ none_up mapped, refuses.0 out)
        | inr (b, server, sends) ↦
            let got = ran ∙ ap (λ d. some (d, q)) sends in
            let (new, up) = goes b server sends in
            let (uri, host, parsed, hosted) = reached server up in
            let (_, _, (h', made, _)) =
              forward_lem ops same laws text host_value server req uri host known parsed hosted in
            inr (
              b,
              server,
              record { method = req.method; uri = uri; headers = h'; body = req.body },
              q,
              call-asks ops text host_value n worker q req b server _ got made,
              up,
              new,
              made,
            )
      ]

  module _ {κ} {C : Type κ} {Chunk S A : Type 0} (setting : Setting U Chunk S)
      (is_server_error : A → Bool) where
    -- If the text of a URL parses as that URL, and the limits of the configuration are at least 2
    -- and fit a `u64`, then in every state that a manager and its workers reach from the manager's
    -- start, each step a turn of the manager, of which each worker gets what it is sent, a step of
    -- one worker, a subscription of a new one, or the end of one, while no listed server is posted
    -- again, numbers for subscribers are left, and each worker that has not ended lists fewer than
    -- 2 ^ 60 backends, stays a subscriber and has fewer than five requests without an answer: if
    -- one of the workers has handled all that was sent to it, hyper knows the version of a client's
    -- request, and for every server that the specification, after events that bring the manager to
    -- its state, of which none posts a server that is listed and down, has as active, the URL made
    -- from the server's and the request's parses and has a host, then `Proxy::call` in that worker,
    -- within as many rounds of the pool's loop as it has backends, either refuses the request, and
    -- the counters of all listed servers that were not listed when the worker subscribed say down;
    -- or sends to a server that is active for the specification, and was not listed when the worker
    -- subscribed, what `forward` makes of the request for it.
    pub Cluster-call :
        {c : Cluster U C} {a : Roster U} (i : ℕ) (n : Node U) (req : Request H M U B)
        → IsReadable setting.text
        → IsSane setting.config
        → Reach setting is_server_error c
        → Run setting c.manager a
        → get_elem? c.nodes i ≡ some n
        → n.todo ≡ []
        → req.version ≢ hidden
        → ((t : Server U) → stands a t ≡ some active → HasUrl text req t)
        → Answers ops text host_value n.joined a n.worker req
    Cluster-call {c} {a} i n req back sane r run there handled known reached =
        Obeys-Answers n.joined a n.worker req known reached
          (Cluster-Obeys setting is_server_error i n back sane r run there handled)
