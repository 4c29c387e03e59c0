-- ===== src/System/Cluster.antt =====
-- The manager with all of its workers (src/mgmt/mod.rs, src/mgmt/worker.rs): its turns are told to each of
-- them, and each works on its own.
pub mod Settles
mod Samples
mod Tests
use weldr.Common.{
  ℕ, ◌+◌, ◌^◌, ◌<◌, ◌≡◌, refl, true, Bool, List, [], ◌∷◌, ◌++◌, map, length, drop, All, All-map,
  All-append, All-both, All-got, get_elem?, none, some, sym, ◌∙◌, ap, All-split, map-All, subst,
  PartialEq, arith,
}
use weldr.Message.{Message}
use weldr.Backend.{Heap}
use weldr.Pool.{Pool, default}
use weldr.Manager.Publisher.{subscribes}
use weldr.System.Channel.{to, has}
use weldr.System.Node.{Node, WorkerStep}
use weldr.Server.{Server}
use weldr.Worker.Status.{status, announced_all}
use weldr.System.Agrees.{Reach-agrees}
use weldr.System.Joined.{heard}
use weldr.System.Sides.{IsReadable}
use weldr.System.Routes.{Routes, Reach-Routes}
use weldr.System

-- The manager and its workers
pub record Cluster {ℓ κ} (U : Type ℓ) (C : Type κ) : Type (ℓ ⊔ κ) where
  pub manager : System.ManagerProcess U C
  pub nodes : List (Node U)

module _ {ℓ κ} {U : Type ℓ} {C : Type κ} where
  -- The manager and one worker of it
  abbrev pub system_of : System.ManagerProcess U C → Node U → System.System U C
  system_of m n = record { manager = m; id = n.id; worker = n.worker; todo = n.todo }

module _ {ℓ κ} {U : Type ℓ} ⦃e : PartialEq U⦄ {C : Type κ} {Chunk S : Type 0}
    (setting : System.Setting U Chunk S) where
  -- What a turn of the manager tells a worker comes behind what that has not handled.
  abbrev pub tell : System.ManagerProcess U C → System.Event U C Chunk S → Node U → Node U
  tell m ev n = record n { todo = (System.advance setting (system_of m n) ev).todo }

  -- A turn of the manager, as all workers see it
  abbrev pub turn : Cluster U C → System.Event U C Chunk S → Cluster U C
  turn c ev = record {
    manager = System.react setting c.manager ev;
    nodes = map (tell c.manager ev) c.nodes;
  }

  -- The turn may come, and every worker stays.
  abbrev pub MayTurn : Cluster U C → System.Event U C Chunk S → Type (ℓ ⊔ κ)
  MayTurn c ev =
      System.Allowed setting c.manager ev
      × All (λ n. System.Holds setting c.manager n.id ev) c.nodes

  -- A worker with an empty pool, in a process with some heap, once the manager has taken its
  -- subscribing.
  abbrev pub joining : System.ManagerProcess U C → Heap U → Node U
  joining m h = record {
    id = m.mgmt.manager.publisher.next_id;
    worker = default h;
    todo = [];
    joined = m.mgmt.pool;
  }

  -- What the manager gets from a worker that subscribes
  abbrev pub subscribing : C → System.Event U C Chunk S
  subscribing client = System.rpc (subscribes (some client))

  abbrev pub join : Cluster U C → C → Heap U → Cluster U C
  join c client h = record (turn c (subscribing client)) {
    nodes = joining c.manager h ∷ (turn c (subscribing client)).nodes;
  }

  -- One step: of the manager, or of one of the workers; or a worker subscribes, or ends. What the
  -- manager gets to know of an end, it gets in a turn.
  pub data Step {A : Type 0} (is_server_error : A → Bool) (c : Cluster U C)
      : Cluster U C → Type (ℓ ⊔ κ) where
    manages : (ev : System.Event U C Chunk S) → MayTurn c ev → Step is_server_error c (turn c ev)
    works :
        (xs ys : List (Node U)) (n : Node U) {q : Pool U} {rest : List (Message U)}
        → c.nodes ≡ xs ++ n ∷ ys
        → WorkerStep setting.text is_server_error n.worker n.todo q rest
        → Step is_server_error c
            (record c { nodes = xs ++ record n { worker = q; todo = rest } ∷ ys })
    joins :
        (client : C) (h : Heap U)
        → MayTurn c (subscribing client)
        → Step is_server_error c (join c client h)
    leaves :
        (xs ys : List (Node U)) (n : Node U)
        → c.nodes ≡ xs ++ n ∷ ys
        → Step is_server_error c (record c { nodes = xs ++ ys })

  -- What is reached from where the manager begins, with no server and no worker.
  pub data Reach {A : Type 0} (is_server_error : A → Bool) : Cluster U C → Type (ℓ ⊔ κ) where
    start : (h : Heap U) → Reach is_server_error (record { manager = System.begin h; nodes = [] })
    next :
        {c d : Cluster U C}
        → Reach is_server_error c
        → Step is_server_error c d
        → Reach is_server_error d

  module _ {A : Type 0} (is_server_error : A → Bool) where
    -- A worker's part of the cluster is reached by the manager and that worker alone.
    abbrev pub Projected : System.ManagerProcess U C → Node U → Type (ℓ ⊔ κ)
    Projected m n = System.Reach setting is_server_error n.joined (system_of m n)

    abbrev pub Projects : Cluster U C → Type (ℓ ⊔ κ)
    Projects c = All (Projected c.manager) c.nodes

    turn-Projects :
        (c : Cluster U C) (ev : System.Event U C Chunk S)
        → MayTurn c ev
        → Projects c
        → Projects (turn c ev)
    unfolding System.advance
    turn-Projects c ev (allowed, stay) all =
        map-All _ (tell c.manager ev) c.nodes
          (All-both (λ n r ok. System.next r (System.manages ev allowed ok)) c.nodes all stay)

    Step-Projects :
        {c d : Cluster U C}
        → Step is_server_error c d
        → System.Managed setting c.manager × Projects c
        → System.Managed setting d.manager × Projects d
    unfolding System.enter
    Step-Projects {c} (manages ev may) (alone, all) =
        (System.turns ev alone may.0, turn-Projects c ev may all)
    Step-Projects {c} (works xs ys n listed st) (alone, all) =
        let P = Projected c.manager in
        let (before, own, behind) = All-split P xs n ys (subst (All P) listed all) in
        (alone, All-append P xs _ before (System.next own (System.works st), behind))
    Step-Projects {c} (joins client h may) (alone, all) =
        let ev = subscribing client in
        (
          System.turns ev alone may.0,
          (System.start c.manager client h refl alone may.0.ids_left, turn-Projects c ev may all),
        )
    Step-Projects {c} (leaves xs ys n listed) (alone, all) =
        let P = Projected c.manager in
        let (before, _, behind) = All-split P xs n ys (subst (All P) listed all) in
        (alone, All-append P xs ys before behind)

    pub Reach-Projects :
        {c : Cluster U C} → Reach is_server_error c → System.Managed setting c.manager × Projects c
    Reach-Projects (start h) = (System.begins h, tt)
    Reach-Projects (next r st) = Step-Projects st (Reach-Projects r)

    at_node :
        (c : Cluster U C) (i : ℕ) (n : Node U)
        → Reach is_server_error c
        → get_elem? c.nodes i ≡ some n
        → Projected c.manager n
    at_node c i n r there = All-got _ c.nodes i n (Reach-Projects r).1 there

    -- If the text of a URL parses as that URL, then in every state that a manager and its workers
    -- reach from the manager's start, each step a turn of the manager, of which each worker gets
    -- what it is sent, a step of one worker, a subscription of a new one, or the end of one, while
    -- no listed server is posted again, numbers for subscribers are left, and each worker that has
    -- not ended lists fewer than 2 ^ 60 backends, stays a subscriber and has fewer than five
    -- requests without an answer: if one of the workers has handled all that was sent to it, then,
    -- whatever the others have left, a request of a client to it ends within as many rounds as it
    -- has backends; it goes to a server that the manager's pool has as active and did not list when
    -- the worker subscribed, or is refused, and that exactly if every backend of the manager's pool
    -- for a server that was not listed then is down.
    pub Cluster-Routes :
        {c : Cluster U C} (i : ℕ) (n : Node U)
        → IsReadable setting.text
        → Reach is_server_error c
        → get_elem? c.nodes i ≡ some n
        → n.todo ≡ []
        → Routes n.joined c.manager.mgmt.pool n.worker
    Cluster-Routes {c} i n back r there handled =
        Reach-Routes setting is_server_error back (at_node c i n r there) handled

    -- If the text of a URL parses as that URL, then in every state that a manager and its workers
    -- reach from the manager's start, each step a turn of the manager, of which each worker gets
    -- what it is sent, a step of one worker, a subscription of a new one, or the end of one, while
    -- no listed server is posted again, numbers for subscribers are left, and each worker that has
    -- not ended lists fewer than 2 ^ 60 backends, stays a subscriber and has fewer than five
    -- requests without an answer: any two workers that have not ended come to say the same of every
    -- server that was not listed when either subscribed, each once the requests sent to it are
    -- handled.
    pub Cluster-agrees :
        {c : Cluster U C} (i j : ℕ) (n k : Node U)
        → IsReadable setting.text
        → Reach is_server_error c
        → get_elem? c.nodes i ≡ some n
        → get_elem? c.nodes j ≡ some k
        → (t : Server U) → status n.joined t ≡ none
        → status k.joined t ≡ none
        → announced_all (status n.worker) n.todo t ≡ announced_all (status k.worker) k.todo t
    Cluster-agrees {c} i j n k back r there there' t new new' =
        let now = status c.manager.mgmt.pool t in
        Reach-agrees setting is_server_error n.joined back (at_node c i n r there) t
        ∙ ap (λ o. heard o now) (new ∙ sym new')
        ∙ sym (Reach-agrees setting is_server_error k.joined back (at_node c j k r there') t)
