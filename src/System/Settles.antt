-- ===== src/System/Settles.antt =====
-- What is under way to a worker (src/mgmt/worker.rs) comes to an end.
use weldr.Common.{
  ◌+◌, ◌^◌, ◌<◌, ◌≡◌, refl, ap, sym, ◌∙◌, Bool, List, [], ◌∷◌, PartialEq, arith, length,
}
use weldr.Message.{Message}
use weldr.Server.{Server}
use weldr.Worker.Status.{status, handle, announced_all}
use weldr.System.Agrees.{Reach-Inv, Reach-agrees}
use weldr.Pool.{Pool}
use weldr.System.Joined.{heard}
use weldr.System.Sides.{IsReadable, receive-handle}
use weldr.System.Sound.{length-handle}
use weldr.System.{Setting, System, Reach, next, works}
use weldr.System.Node.{handles}

module _ {ℓ κ} {U : Type ℓ} ⦃e : PartialEq U⦄ {C : Type κ} {Chunk S A : Type 0}
    (setting : Setting U Chunk S) (is_server_error : A → Bool) (joined : Pool U) where
  drain :
      (ms : List (Message U)) {s : System U C}
      → IsReadable setting.text
      → Reach setting is_server_error joined s
      → s.todo ≡ ms
      → length s.worker.backends + length ms < 2 ^ 60
      → (t : System U C) × Reach setting is_server_error joined t
        × (t.manager ≡ s.manager)
        × (t.todo ≡ [])
  drain [] {s} back r e room = (s, r, refl, e)
  drain (m ∷ ms) {s} back r e room =
      let closed = (Reach-Inv setting is_server_error joined back r).worker_inv.closed in
      let longer = length-handle s.worker m closed in
      let got = receive-handle setting.text s.worker m back in
      drain ms back (next r (works (handles m ms {q = handle s.worker m} e (omega arith) got))) refl
        (omega (arith, longer))

  -- If the text of a URL parses as that URL, then from every state in which the worker's backends
  -- and the requests sent to it are fewer than 2 ^ 60, of those that a manager reaches from its
  -- start and a worker from its subscription at any time, while no listed server is posted again,
  -- numbers for subscribers are left, the worker lists fewer than 2 ^ 60 backends, its subscription
  -- stays, and it has fewer than five requests without an answer, a state with the same manager is
  -- reached in which the worker has handled all of them, and its pool says nothing of the servers
  -- that were listed when it subscribed, and of every other server what the manager's pool says.
  pub Reach-settles :
      {s : System U C}
      → IsReadable setting.text
      → Reach setting is_server_error joined s
      → length s.worker.backends + length s.todo < 2 ^ 60
      → (t : System U C) × Reach setting is_server_error joined t
        × (t.manager ≡ s.manager)
        × (t.todo ≡ [])
        × ((u : Server U)
            → status t.worker u ≡ heard (status joined u) (status s.manager.mgmt.pool u))
  unfolding announced_all
  Reach-settles {s} back r room =
      let (t, r', same, handled) = drain s.todo back r refl room in
      (
        t,
        r',
        same,
        handled,
        λ u.
            sym (ap (λ ms. announced_all (status t.worker) ms u) handled)
            ∙ Reach-agrees setting is_server_error joined back r' u
            ∙ ap (λ m. heard (status joined u) (status m.mgmt.pool u)) same,
      )
