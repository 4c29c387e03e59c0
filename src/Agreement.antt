-- ===== src/Agreement.antt =====
-- The manager's pool (src/mgmt/health.rs) and a worker's (src/mgmt/worker.rs): what the manager publishes
-- when it changes its own pool, and what a worker makes of that.
pub mod Checks
mod Tests
use weldr.Common.{
  append_assoc, find, All, All-append, String, Option-cases, All-map, ◌≡◌, refl, ap, sym, ◌∙◌, Bool,
  true, false, Option, none, some, List, [], ◌∷◌, ◌++◌, append-nil, ℕ, arith, PartialEq,
  if◌then◌else◌, Bool-cases, inl, inr, ◌==◌,
}
use Prim.Native.String.{◌++◌ as append}
use mathlib.Core.Option
use mathlib.Core.Path.{fun_ext}
use weldr.Config.{Config}
use weldr.Message
use weldr.Message.{Message, mark_server_down, mark_server_active}
use weldr.Server
use weldr.Server.{Server, server_eq}
use weldr.Backend
use weldr.Backend.{Backend, InnerBackend, ServerState, active, down}
use weldr.Pool.{Pool, find_backend, find_server}
use weldr.Pool.Members.{IsClosed}
use weldr.Health.{BackendHealth}
use weldr.Health.Check.{
  World, start_check, start_checks, CheckResult, response, error, enable, disable, on_pass, on_fail,
  on_result,
}
use weldr.Health.Streak.{on_pass_cases, on_fail_cases, on_result-Others, Others, disable-Others}
use weldr.Worker.Status.{
  status, announced, announced_all, handle_all, handle_all-announced, status-changed, changed,
}

-- The manager's pool, in the heap of its backends
abbrev pub pool_of {ℓ} : {U : Type ℓ} → World U → Pool U
pool_of w = record { heap = w.heap; inner = w.pool }

module _ {ℓ} {U : Type ℓ} ⦃e : PartialEq U⦄ where
  -- Whether a request marks a server, and adds none.
  abbrev pub is_mark : Message U → Bool
  is_mark (Message.add_server url) = false
  is_mark (Message.mark_server_down url) = true
  is_mark (Message.mark_server_active url) = true

  -- The backend is the first for its server, and that server is one as the API and the workers make it.
  pub record IsFirst (p : Pool U) (b : Backend) : Type ℓ where
    pub first : find_backend p (p.heap.cell b).server ≡ some b
    pub maps : (p.heap.cell b).server.map_host ≡ true

  -- What is published in between tells exactly what becomes of every server, and adds none.
  abbrev pub Told : World U → World U → Type ℓ
  Told w w' =
      (ms : List (Message U)) × (w'.published ≡ w.published ++ ms)
      × ((t : Server U) → status (pool_of w') t ≡ announced_all (status (pool_of w)) ms t)
      × All (λ m. is_mark m ≡ true) ms

  server-new :
      (w : World U) (b : Backend)
      → IsFirst (pool_of w) b
      → Server.new (w.heap.cell b).server.url true ≡ (w.heap.cell b).server
  unfolding Server.new
  server-new w b f =
      ap (λ m. record { url = (w.heap.cell b).server.url; map_host = m }) (sym f.maps)

  pub Told-health : (w : World U) (m : BackendHealth) → Told w (record w { health = m })
  unfolding announced_all
  Told-health w m = ([], sym (append-nil w.published), (λ t. refl), tt)

  pub Told-nothing : (w : World U) → Told w w
  unfolding announced_all
  Told-nothing w = ([], sym (append-nil w.published), (λ t. refl), tt)

  pub announced_all-append :
      (d : Server U → Option ServerState) (xs ys : List (Message U)) (t : Server U)
      → announced_all d (xs ++ ys) t ≡ announced_all (announced_all d xs) ys t
  unfolding announced_all
  announced_all-append d [] ys t = refl
  announced_all-append d (x ∷ xs) ys t = announced_all-append (announced d x) xs ys t

  pub Told-both : (w w' w'' : World U) → Told w w' → Told w' w'' → Told w w''
  Told-both w w' w'' (ms, said, told, marks) (ns, said', told', marks') = (
    ms ++ ns,
    said' ∙ ap (λ p. p ++ ns) said ∙ append_assoc w.published ms ns,
    (λ t.
        told' t
        ∙ ap (λ d. announced_all d ns t) (fun_ext told)
        ∙ sym (announced_all-append (status (pool_of w)) ms ns t)),
    All-append _ ms ns marks marks',
  )

  pub kept-IsFirst :
      (w w' : World U) (b i : Backend)
      → Others w w' b
      → IsFirst (pool_of w) i
      → IsFirst (pool_of w') i
  unfolding find_backend find_server
  kept-IsFirst w w' b i (pools, servers, _, _) f =
      let same : (w'.heap.cell i).server ≡ (w.heap.cell i).server = servers i in
      let tests = fun_ext λ j. ap (λ v. v == (w.heap.cell i).server) (servers j) in
      record {
        first = rw (same, pools) (ap (λ p. find p w.pool.backends) tests ∙ f.first);
        maps = ap (λ v. v.map_host) same ∙ f.maps;
      }

  pub Told-down :
      (w : World U) (b : Backend) (m : BackendHealth)
      → IsFirst (pool_of w) b
      → Told w (disable (record w { health = m }) b)
  unfolding disable announced_all announced Backend.mark_down
  Told-down w b m f = (
    mark_server_down (w.heap.cell b).server.url ∷ [],
    ground arith,
    (λ t.
        rw (server-new w b f) (status-changed (pool_of w) b down (w.heap.cell b).server t f.first)),
    (refl, tt),
  )

  pub Told-active :
      (w : World U) (b : Backend) (m : BackendHealth)
      → IsFirst (pool_of w) b
      → Told w (enable (record w { health = m }) b)
  unfolding enable announced_all announced Backend.mark_active
  Told-active w b m f = (
    mark_server_active (w.heap.cell b).server.url ∷ [],
    ground arith,
    (λ t.
        rw (server-new w b f)
          (status-changed (pool_of w) b active (w.heap.cell b).server t f.first)),
    (refl, tt),
  )
