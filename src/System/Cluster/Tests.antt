-- ===== src/System/Cluster/Tests.antt =====
-- What holds of the two workers and the manager.
use weldr.Common.{
  subst, ◌≢◌, true, some, ℕ, String, ◌≡◌, refl, map, All, none, [], ◌∷◌, arith, string_partial_eq,
}
use weldr.Server
use weldr.Server.{Server}
use weldr.Backend
use weldr.Backend.{Heap, down}
use weldr.Api.{post}
use weldr.Pool.{default, find_backend, add}
use weldr.Manager
use weldr.Manager.Publisher
use weldr.Worker.Status.{status, announced_all}
use weldr.System.{begin, advance, react}
use weldr.System.Routes.{Routes}
use weldr.System.Samples.{setting, setting-IsSane, empty_heap, is_server_error}
use weldr.System.Joined.{heard}
use weldr.System.Cluster.Settles.{Steps, subscribed, Cluster-Settles}
use weldr.System.Cluster.{Cluster, Reach, next, leaves, subscribing, Cluster-Routes, Cluster-agrees}
use weldr.System.Roster.{Roster, Run, empty, observe, adds, stands, posted_url, begins, turns}
use weldr.System.Roster.Clients.{Answers, Cluster-call}
use weldr.Proxy.{target}
use weldr.Proxy.Samples.{ops, same, laws, text, host_value, request}
use weldr.System.Roster.Obeys.{Obeys, Cluster-Obeys}
use weldr.System.Cluster.Samples.{posts, c4, c6, whole, late, c4-Reach, c6-Reach}

Cluster-Routes_example : Routes (default empty_heap) c6.manager.mgmt.pool whole.worker
unfolding begin
Cluster-Routes_example =
    Cluster-Routes setting is_server_error 1 whole (λ u. refl) c6-Reach refl refl

abbrev site : Server String
site = record { url = "http://b"; map_host = true }

Cluster-agrees_example :
    announced_all (status late.worker) late.todo site ≡ announced_all (status whole.worker) [] site
unfolding begin react find_backend add Backend.new
Cluster-agrees_example =
    Cluster-agrees setting is_server_error 0 1 late whole (λ u. refl) c6-Reach refl refl site refl
      refl

-- The late worker is not told of the first server.
untold :
    announced_all (status late.worker) late.todo (record { url = "http://a"; map_host = true })
    ≡ none
unfolding Publisher.step Manager.new begin default react advance announced_all find_backend add
    Backend.new
untold = refl

Cluster-Settles_example :
    (d : Cluster String ℕ) × Steps setting is_server_error 3 c4 d
    × (d.manager ≡ c4.manager)
    × (map subscribed d.nodes ≡ map subscribed c4.nodes)
    × All
        (λ n.
          (n.todo ≡ [])
          × ((u : Server String)
              → status n.worker u ≡ heard (status n.joined u) (status d.manager.mgmt.pool u)))
        d.nodes
unfolding Publisher.step Manager.new begin default react advance
Cluster-Settles_example =
    Cluster-Settles setting is_server_error (λ u. refl) c4-Reach (omega arith, (omega arith, tt))

-- The late worker ends.
c6_alone : Reach setting is_server_error (record c6 { nodes = whole ∷ [] })
c6_alone = next c6-Reach (leaves [] (whole ∷ []) late refl)

-- The specification before the second post, and after it
abbrev before : Roster String
before =
    observe setting
      (observe setting (observe setting empty (subscribing {C = ℕ} setting 7)) (posts "http://a"))
      (subscribing {C = ℕ} setting 8)

abbrev roster : Roster String
roster = observe setting before (posts "http://b")

second_post :
    (url : String)
    → posted_url setting post "/servers" (some "http://b") ≡ some url
    → stands before (Server.new url true) ≢ some down
unfolding adds observe posted_url
second_post url e =
    let same : "http://b" ≡ url = cc (e) in
    subst (λ u. stands before (Server.new u true) ≢ some down) same (λ is. cc (is))

roster-Run : Run setting c4.manager roster
unfolding observe
roster-Run =
    turns (posts "http://b")
      (turns (subscribing setting 8)
        (turns (posts "http://a") (turns (subscribing setting 7) (begins empty_heap) tt)
          (λ url e is. cc (is)))
        tt)
      second_post

Cluster-Obeys_example : Obeys (default empty_heap) roster whole.worker
unfolding begin
Cluster-Obeys_example =
    Cluster-Obeys setting is_server_error 1 whole (λ u. refl) setting-IsSane c6-Reach roster-Run
      refl refl

Cluster-call_example : Answers ops text host_value (default empty_heap) roster whole.worker request
unfolding begin
Cluster-call_example =
    Cluster-call ops same laws text host_value setting is_server_error 1 whole request (λ u. refl)
      setting-IsSane c6-Reach roster-Run refl refl (λ e. cc (e))
      (λ t up. (target text t request.uri, "server", refl, refl))
