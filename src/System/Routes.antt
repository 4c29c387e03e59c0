-- ===== src/System/Routes.antt =====
-- Where a worker (src/pool.rs, src/mgmt/worker.rs) sends the requests of clients, by what the manager
-- (src/mgmt/mod.rs) knows of the servers.
use weldr.Common.{
  ◌≡◌, none, refl, ap, sym, ◌∙◌, ◌↔◌, Bool, true, false, not, some, [], All, All-map, All-find,
  PartialEq, Option-cases, inl, inr, length,
}
use mathlib.Core.Option
use weldr.Server.{Server}
use weldr.Backend
use weldr.Backend.{Backend, ServerState, active, down, state_beq}
use weldr.Pool.{Pool, find_backend, find_server}
use weldr.Pool.Rotation.{live}
use weldr.Pool.Request.{Dispatch, sent, exhausted, request}
use weldr.Worker.Status.{status, announced_all, found_server}
use weldr.Worker.Serving.{request_lem, request-All}
use weldr.Agreement.{IsFirst}
use weldr.System.Agrees.{Reach-Inv}
use weldr.System.Joined.{heard, heard-some}
use weldr.System.Sides.{IsReadable}
use weldr.System.{Setting, System, Reach}

up_active : (v : ServerState) → not (state_beq v down) ≡ true → v ≡ active
up_active active up = refl
up_active down up = cc (up)

pub dead_down : (v : ServerState) → not (state_beq v down) ≡ false → v ≡ down
dead_down active dead = cc (dead)
dead_down down dead = refl

module _ {ℓ} {U : Type ℓ} ⦃e : PartialEq U⦄ where
  first-status :
      (p : Pool U) (b : Backend)
      → IsFirst p b
      → status p (Backend.server p.heap b) ≡ some (p.heap.cell b).state
  first-status p b f = ap (Option.map (λ i. (p.heap.cell i).state)) f.first

  -- A backend is down if another pool says the same of its server, and has it down.
  dead-same :
      (p q : Pool U) (b : Backend)
      → let s = Backend.server p.heap b in
        status q s ≡ status p s
        → All (λ c. Backend.server q.heap c ≡ s → live q.heap c ≡ false) q.backends
        → IsFirst p b
        → live p.heap b ≡ false
  unfolding find_backend find_server
  dead-same p q b same dead f =
      let s = Backend.server p.heap b in
      let there : status q s ≡ some (p.heap.cell b).state = same ∙ first-status p b f in
      elim (Option-cases (find_backend q s)) [
        | inl missing ↦ let never = rw missing at there in cc (never)
        | inr (c, found) ↦
            let states = rw found at there in
            let is : (q.heap.cell c).state ≡ (p.heap.cell b).state = cc (states) in
            let off = All-find _ _ q.backends c dead found (found_server q s c found) in
            ap (λ v. not (state_beq v down)) (sym is ∙ dead_down _ off)
      ]

  -- The backends for servers that were not listed in the one pool are down in the other.
  abbrev pub AllDown : Pool U → Pool U → Type 0
  AllDown joined m =
      All (λ b. status joined (Backend.server m.heap b) ≡ none → live m.heap b ≡ false) m.backends

  -- Two pools, of which the second says what is heard of the first.
  module _ (joined m worker : Pool U)
      (hears : (t : Server U) → status worker t ≡ heard (status joined t) (status m t)) where
    dead-heard : (b : Backend) → AllDown joined m → IsFirst worker b → live worker.heap b ≡ false
    dead-heard b dead f =
        let s = Backend.server worker.heap b in
        let (new, same) = heard-some (status joined s) (sym (hears s) ∙ first-status worker b f) in
        dead-same worker m b (same ∙ sym (first-status worker b f))
          (All-map (λ c off is. off (ap (status joined) is ∙ new)) m.backends dead) f

    dead-told :
        (b : Backend)
        → All (λ c. live worker.heap c ≡ false) worker.backends
        → IsFirst m b
        → status joined (Backend.server m.heap b) ≡ none
        → live m.heap b ≡ false
    dead-told b dead f new =
        let s = Backend.server m.heap b in
        dead-same m worker b (hears s ∙ ap (λ o. heard o (status m s)) new)
          (All-map (λ c off _. off) worker.backends dead) f

  -- What a worker makes of a client's request, by the manager's pool now and when the worker
  -- subscribed: within as many rounds as the worker has backends it is sent to a server that is
  -- active now and was not listed then, or refused, and that exactly if every backend for a server
  -- that was not listed then is down.
  abbrev pub Routes : Pool U → Pool U → Pool U → Type ℓ
  Routes joined m worker =
      (d : Dispatch U) × (q : Pool U) × (request (length worker.backends) worker ≡ some (d, q))
      × ((b : Backend) (server : Server U)
          → d ≡ sent b server
          → (status joined server ≡ none) × (status m server ≡ some active))
      × ((d ≡ exhausted) ↔ AllDown joined m)

module _ {ℓ κ} {U : Type ℓ} ⦃e : PartialEq U⦄ {C : Type κ} {Chunk S A : Type 0}
    (setting : Setting U Chunk S) (is_server_error : A → Bool) where
  -- A worker that has handled all that was sent to it, whenever it subscribed.
  pub Reach-Routes :
      {joined : Pool U} {s : System U C}
      → IsReadable setting.text
      → Reach setting is_server_error joined s
      → s.todo ≡ []
      → Routes joined s.manager.mgmt.pool s.worker
  unfolding announced_all
  Reach-Routes {joined} {s} back r handled =
      let v = Reach-Inv setting is_server_error joined back r in
      let m = s.manager.mgmt.pool in
      let hears : (t : Server U) → status s.worker t ≡ heard (status joined t) (status m t) =
        λ t. sym (ap (λ ms. announced_all (status s.worker) ms t) handled) ∙ v.agree t in
      let (d, q, ran, up, refuses) = request_lem s.worker v.worker_inv.valid in
      (
        d,
        q,
        ran,
        (λ b server goes.
            let (lives, its) = up b server goes in
            let first =
              request-All (IsFirst s.worker) (length s.worker.backends) s.worker q b server
                v.worker_inv.firsts (ran ∙ ap (λ d. some (d, q)) goes) in
            let known = first-status s.worker b first ∙ ap some (up_active _ lives) in
            heard-some (status joined server)
              (sym (hears server) ∙ ap (status s.worker) its ∙ known)),
        (
          (λ out.
              All-map (λ b f. dead-told joined m s.worker hears b (refuses.0 out) f) m.backends
                v.manager_inv.firsts),
          (λ dead. refuses.1 (
              All-map (λ b f. dead-heard joined m s.worker hears b dead f) s.worker.backends
                v.worker_inv.firsts)),
        ),
      )
