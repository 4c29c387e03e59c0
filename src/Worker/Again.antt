-- ===== src/Worker/Again.antt =====
-- A worker (src/mgmt/worker.rs) that is sent a server which it has and has used.
use weldr.Common.{
  ◌<◌, ◌≡◌, ◌≢◌, refl, ap, ◌∙◌, true, false, not, some, [], ◌∷◌, ◌++◌, All, All-find, arith,
  PartialEq,
}
use weldr.Message
use weldr.Server
use weldr.Server.{Server, server_eq}
use weldr.Backend
use weldr.Backend.{Backend, Heap, down, state_beq}
use weldr.Pool
use weldr.Pool.{Pool, find_backend, find_server}
use weldr.Pool.Rotation.{live}
use weldr.Pool.Members.{IsClosed, fresh, add_server_lem, add_server_again, find-add_server}
use weldr.Worker.{add_url, mark_url_down}
use weldr.Worker.Status.{handle, handle_all}

module _ {ℓ} {U : Type ℓ} where
  mark_down-cell : (h : Heap U) (b i : Backend) → b < i → (Backend.mark_down h b).cell i ≡ h.cell i
  unfolding Backend.mark_down
  mark_down-cell h b i lt = ground arith

  mark_down-dead : (h : Heap U) (b : Backend) → live (Backend.mark_down h b) b ≡ false
  unfolding Backend.mark_down
  mark_down-dead h b = ground arith

module _ {ℓ} {U : Type ℓ} ⦃e : PartialEq U⦄ where
  -- Where no reference of a worker's pool dangles, no backend of it is an active one for a server
  -- that has not counted anything, and a backend for the server is found, then after the manager's
  -- request to add the server and the one to mark it down, the server is listed once more, by a
  -- backend that is up, while the one found is down.
  pub add_again-down :
      (p : Pool U) (url : U) (b : Backend)
      → IsClosed p
      → All (λ i. p.heap.cell i ≢ fresh (Server.new url true)) p.backends
      → find_backend p (Server.new url true) ≡ some b
      → let q = handle_all p (Message.add_server url ∷ Message.mark_server_down url ∷ []) in
        (q.backends ≡ p.backends ++ p.heap.next ∷ [])
        × (Backend.server q.heap p.heap.next ≡ Server.new url true)
        × (live q.heap p.heap.next ≡ true)
        × (live q.heap b ≡ false)
  unfolding handle_all handle add_url mark_url_down Backend.mark_down find_backend find_server
  add_again-down p url b c used found =
      let s = Server.new url true in
      let q1 = (Pool.add_server p s).0 in
      let (_, listed, its) = add_server_again p s c used in
      let stored = (add_server_lem p s c).4 in
      let older : b < p.heap.next = All-find _ _ p.backends b c found in
      let still : find_backend q1 s ≡ some b = find-add_server p s s c ∙ rw found refl in
      let new = mark_down-cell q1.heap b p.heap.next older ∙ stored in
      rw (still, mark_url_down)
        (
          listed,
          ap (λ v. v.server) new,
          ap (λ v. not (state_beq v.state down)) new,
          mark_down-dead q1.heap b,
        )
