-- ===== src/System/Cluster/Settles.antt =====
-- What is under way to the workers (src/mgmt/worker.rs) comes to an end, at all of them.
use weldr.Common.{
  ℕ, suc, ◌+◌, ◌^◌, ◌<◌, ◌≡◌, refl, ap, sym, ◌∙◌, Bool, List, [], ◌∷◌, ◌++◌, map, All, All-both,
  All-split, PartialEq, arith, length, append_assoc, subst,
}
use weldr.Message.{Message}
use weldr.Server.{Server}
use weldr.Worker.Status.{status, handle, announced_all}
use weldr.System
use weldr.System.Agrees.{Reach-Inv, Reach-agrees}
use weldr.System.Joined.{heard}
use weldr.System.Node.{Node, handles}
use weldr.System.Sides.{IsReadable, receive-handle}
use weldr.System.Sound.{length-handle}
use weldr.Pool.{Pool}
use weldr.System.Cluster.{Cluster, system_of, Step, Reach, next, works, Reach-Projects}

-- The requests that the workers have not handled.
abbrev pub waiting {ℓ} : {U : Type ℓ} → List (Node U) → ℕ
waiting [] = 0
waiting (n ∷ ns) = length n.todo + waiting ns

-- What of a worker no step of it changes: its number, and the manager's pool when it subscribed.
abbrev pub subscribed {ℓ} : {U : Type ℓ} → Node U → ℕ × Pool U
subscribed n = (n.id, n.joined)

module _ {ℓ κ} {U : Type ℓ} ⦃e : PartialEq U⦄ {C : Type κ} {Chunk S A : Type 0}
    (setting : System.Setting U Chunk S) (is_server_error : A → Bool) where
  -- A number of steps, from one state to another
  pub data Steps : ℕ → Cluster U C → Cluster U C → Type (ℓ ⊔ κ) where
    done : {c : Cluster U C} → Steps 0 c c
    step :
        {k : ℕ} {c d f : Cluster U C}
        → Step setting is_server_error c d
        → Steps k d f
        → Steps (suc k) c f

  recount : {j k : ℕ} (c d : Cluster U C) → j ≡ k → Steps j c d → Steps k c d
  recount c d same steps = subst (λ n. Steps n c d) same steps

  Steps-append : {j k : ℕ} {c d f : Cluster U C} → Steps j c d → Steps k d f → Steps (j + k) c f
  Steps-append {k} {c} {f} done more = recount {j = k} {k = 0 + k} c f (omega arith) more
  Steps-append {k} {c} {f} (step {k = j} st rest) more =
      recount {j = suc (j + k)} {k = suc j + k} c f (omega arith) (step st (Steps-append rest more))

  Steps-Reach :
      {k : ℕ} {c d : Cluster U C}
      → Steps k c d
      → Reach setting is_server_error c
      → Reach setting is_server_error d
  Steps-Reach done r = r
  Steps-Reach (step st rest) r = Steps-Reach rest (next r st)

module _ {ℓ κ} {U : Type ℓ} ⦃e : PartialEq U⦄ {C : Type κ} {Chunk S A : Type 0}
    (setting : System.Setting U Chunk S) (is_server_error : A → Bool)
    (back : IsReadable setting.text) where
  -- The workers are these, with the manager as it is.
  abbrev among : System.ManagerProcess U C → List (Node U) → Cluster U C
  among m ns = record { manager = m; nodes = ns }

  -- One worker handles what was sent to it, while the others stay as they are.
  drain_node :
      (ms : List (Message U)) (m : System.ManagerProcess U C) (xs ys : List (Node U)) (n : Node U)
      → Reach setting is_server_error (among m (xs ++ n ∷ ys))
      → n.todo ≡ ms
      → length n.worker.backends + length ms < 2 ^ 60
      → (k : Node U) × Steps setting is_server_error
          (length ms)
          (among m (xs ++ n ∷ ys))
          (among m (xs ++ k ∷ ys))
        × (k.todo ≡ [])
        × (subscribed k ≡ subscribed n)
  drain_node [] m xs ys n r e room = (n, done, e, refl)
  drain_node (x ∷ ms) m xs ys n r e room =
      let (_, own, _) = All-split _ xs n ys (Reach-Projects setting is_server_error r).1 in
      let closed = (Reach-Inv setting is_server_error n.joined back own).worker_inv.closed in
      let longer = length-handle n.worker x closed in
      let got = receive-handle setting.text n.worker x back in
      let st = works xs ys n refl (handles x ms {q = handle n.worker x} e (omega arith) got) in
      let after : Node U = record n { worker = handle n.worker x; todo = ms } in
      let (k, rest, empty, same) =
        drain_node ms m xs ys after (next r st) refl (omega (arith, longer)) in
      (k, step st rest, empty, same)

  -- One worker after another.
  drain_all :
      (m : System.ManagerProcess U C) (xs ys : List (Node U))
      → Reach setting is_server_error (among m (xs ++ ys))
      → All (λ n. length n.worker.backends + length n.todo < 2 ^ 60) ys
      → (zs : List (Node U)) × Steps setting is_server_error
          (waiting ys)
          (among m (xs ++ ys))
          (among m (xs ++ zs))
        × All (λ n. n.todo ≡ []) zs
        × (map subscribed zs ≡ map subscribed ys)
  drain_all m xs [] r room = ([], done, tt, refl)
  drain_all m xs (n ∷ ys) r room =
      let (k, own, empty, same) = drain_node n.todo m xs ys n r refl room.0 in
      let regroup = λ (ns : List (Node U)). append_assoc xs (k ∷ []) ns in
      let moved =
        subst (λ ns. Reach setting is_server_error (among m ns)) (sym (regroup ys))
          (Steps-Reach setting is_server_error own r) in
      let (zs, rest, all, others) = drain_all m (xs ++ k ∷ []) ys moved room.1 in
      let from =
        subst
          (λ ns.
            Steps setting is_server_error (waiting ys) (among m ns)
              (among m ((xs ++ k ∷ []) ++ zs)))
          (regroup ys) rest in
      let there =
        subst
          (λ ns. Steps setting is_server_error (waiting ys) (among m (xs ++ k ∷ ys)) (among m ns))
          (regroup zs) from in
      (k ∷ zs, Steps-append setting is_server_error own there, (empty, all), rw (same, others) refl)

  settled :
      (m : System.ManagerProcess U C) (n : Node U)
      → System.Reach setting is_server_error n.joined (system_of m n)
      → n.todo ≡ []
      → (u : Server U) → status n.worker u ≡ heard (status n.joined u) (status m.mgmt.pool u)
  unfolding announced_all
  settled m n r handled u =
      sym (ap (λ ms. announced_all (status n.worker) ms u) handled)
      ∙ Reach-agrees setting is_server_error n.joined back r u

  -- If the text of a URL parses as that URL, then from every state in which, at each worker, the
  -- backends and the requests sent to it are fewer than 2 ^ 60, of those that a manager and its
  -- workers reach from the manager's start, each step a turn of the manager, of which each worker
  -- gets what it is sent, a step of one worker, a subscription of a new one, or the end of one,
  -- while no listed server is posted again, numbers for subscribers are left, and each worker that
  -- has not ended lists fewer than 2 ^ 60 backends, stays a subscriber and has fewer than five
  -- requests without an answer, as many steps as there are requests that the workers have not
  -- handled lead to a state with the same manager and the same workers, with their numbers and the
  -- manager's pool at their subscriptions, in which every worker has handled all that was sent to
  -- it, and says nothing of the servers that were listed when it subscribed, and of every other
  -- server what the manager's pool says.
  pub Cluster-Settles :
      {c : Cluster U C}
      → Reach setting is_server_error c
      → All (λ n. length n.worker.backends + length n.todo < 2 ^ 60) c.nodes
      → (d : Cluster U C) × Steps setting is_server_error (waiting c.nodes) c d
        × (d.manager ≡ c.manager)
        × (map subscribed d.nodes ≡ map subscribed c.nodes)
        × All
            (λ n.
              (n.todo ≡ [])
              × ((u : Server U)
                  → status n.worker u ≡ heard (status n.joined u) (status d.manager.mgmt.pool u)))
            d.nodes
  Cluster-Settles {c} r room =
      let (zs, steps, empty, same) = drain_all c.manager [] c.nodes r room in
      let end = Steps-Reach setting is_server_error steps r in
      (
        among c.manager zs,
        steps,
        refl,
        same,
        All-both (λ n own e. (e, settled c.manager n own e)) zs
            (Reach-Projects setting is_server_error end).1 empty,
      )
